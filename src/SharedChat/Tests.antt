-- ===== src/SharedChat/Tests.antt =====
-- A table of two connections, and the theorems on socket/ipc/shm.c at it.
use unix_programming.Base.{
  ℕ, zero, suc, ◌<◌, ◌≡◌, refl, true, false, none, some, List, [], ◌∷◌, arith, replicate, Gives,
  ◌>>=◌, length, length-replicate, ◌*◌,
}
use unix_programming.SharedChat.{
  Client, Chat, point, Event, child, reap_one, on_accept, accepted, signals, sigchld, from_child,
  run, sigterm, forked, close_fd, watch, unwatch, send_child, kill_term, user_limit,
}
use unix_programming.SharedChat.Table.{Stands, IsTable, Fresh}
use unix_programming.SharedChat.Events.{MayRun, run-IsTable}
use unix_programming.SharedChat.Slots.{Shared, reap-Shared}
use unix_programming.SharedChat.Child.{
  bytes, on_conn, on_pipe, client, child_event, batch, run_child, buffer_size, other_event,
  PipeRecv,
}
use unix_programming.SharedChat.Child.Relayed.{Relayed, message-Relayed}

abbrev blank : Client
blank = record { connfd = 0; pid = 0; pipefd = 0; child_end = 0; slot = 0 }

abbrev ann : Client
ann = record { connfd = 7; pid = 100; pipefd = 10; child_end = 11; slot = 0 }

abbrev bob : Client
bob = record { connfd = 8; pid = 101; pipefd = 12; child_end = 13; slot = 1 }

abbrev empty : Chat
empty = record {
  users = replicate 6 blank;
  user_count = 0;
  sub_process = λ _. none;
  stop = false;
  terminate = false;
}

abbrev two : Chat
two = record empty {
  users = ann ∷ bob ∷ blank ∷ blank ∷ blank ∷ blank ∷ [];
  user_count = 2;
  sub_process = point (point (λ _. none) 100 (some 0)) 101 (some 1);
}

ann-Stands : Stands two 0 ann
ann-Stands = record { at = refl; small = omega arith; back = refl }

bob-Stands : Stands two 1 bob
bob-Stands = record { at = refl; small = omega arith; back = refl }

two-IsTable : IsTable two
two-IsTable = record { size = refl; limit = omega arith; entries = entry }
  where
    entry : (i : ℕ) → i < 2 → (c : Client) × Stands two i c
    entry zero h = (ann, ann-Stands)
    entry (suc zero) h = (bob, bob-Stands)
    entry (suc (suc i)) h = absurd (omega arith)

pid_at : {c d : Client} → some c ≡ some d → d.pid ≡ c.pid
pid_at e = cc

two-Fresh : Fresh two 102
two-Fresh zero c h at = let e = pid_at at.at in omega arith
two-Fresh (suc zero) c h at = let e = pid_at at.at in omega arith
two-Fresh (suc (suc i)) c h at = absurd (omega arith)

-- ann leaves, and a third client comes
reap-Shared_example :
    Gives
      (λ r. IsTable r.0 × Shared r.0)
      (do (t, acts) ← reap_one 100 two; on_accept 9 14 15 (child 102) t)
reap-Shared_example =
    reap-Shared two 0 1 ann bob 9 14 15 102 two-IsTable refl (omega arith) ann-Stands bob-Stands
      refl (omega arith) two-Fresh

abbrev day : List (List Event)
day =
    (signals (sigchld (100 ∷ []) ∷ []) ∷ [])
    ∷ (accepted (some 9) 14 15 (child 102) ∷ from_child 12 (some 1) ∷ signals (sigterm ∷ []) ∷ [])
    ∷ []

abbrev one : Chat
one = record two {
  users = bob ∷ bob ∷ blank ∷ blank ∷ blank ∷ blank ∷ [];
  user_count = 1;
  sub_process = point (point two.sub_process 100 none) 101 (some 0);
}

one-Fresh : Fresh one 102
one-Fresh zero c h at = let e = pid_at at.at in omega arith
one-Fresh (suc i) c h at = absurd (omega arith)

day-MayRun : MayRun day two
unfolding run
day-MayRun = (
  ((((0, ann, omega arith, ann-Stands, refl), tt), tt), tt),
  (((omega arith, one-Fresh), (tt, ((tt, tt), tt))), tt),
)

run-IsTable_example : Gives (λ r. IsTable r.0) (run day two)
run-IsTable_example = run-IsTable day two two-IsTable day-MayRun

run_sends :
    Gives
      (λ r.
        r.1
        ≡ unwatch 10
          ∷ close_fd 10
          ∷ forked 1
          ∷ close_fd 9
          ∷ close_fd 15
          ∷ watch 14
          ∷ send_child 14 1
          ∷ kill_term 101
          ∷ kill_term 102
          ∷ [])
      (run day two)
unfolding run
run_sends = Gives.gives refl

memory : List ℕ
memory = replicate 5120 0

length-memory : length memory ≡ user_limit * buffer_size
unfolding memory
length-memory = length-replicate {A = ℕ} 5120 0

message-Relayed_example :
    Gives
      (Relayed 2 (104 ∷ 105 ∷ []) memory false)
      (child_event 2 (on_conn (bytes (104 ∷ 105 ∷ []))) false memory)
message-Relayed_example =
    message-Relayed 2 (104 ∷ 105 ∷ []) memory false length-memory (omega arith) (omega arith)
      (omega arith)

child_stops :
    run_child 2
      (batch (([], on_pipe PipeRecv.closed) ∷ ([], other_event) ∷ [])
        ∷ batch (([], on_pipe (client 0)) ∷ [])
        ∷ [])
      false
    ≡ some (true, [])
unfolding run_child
child_stops = refl
