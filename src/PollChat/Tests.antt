-- ===== src/PollChat/Tests.antt =====
-- A chat with one user, and the theorems on socket/io_multiplexing/io_chatroom_server.c at it.
use unix_programming.Base.{
  ℕ, zero, suc, ◌≤◌, ◌<◌, ◌≡◌, ◌≢◌, refl, true, false, none, some, [], ◌∷◌, arith, ◌==◌,
  if◌then◌else◌, Gives,
}
use unix_programming.Base.Text.{codes, until_nul}
use unix_programming.PollChat.{
  Ready, PollFd, Chat, Calls, quiet, nonblocking, send_text, bytes, again, put_user, less_one,
  on_connection, remove, tell_others, filled, on_data, on_writable, visit, visits, polled, round,
  run,
}
use unix_programming.PollChat.Room.{entry, IsUser, IsRoom}
use unix_programming.PollChat.Arrival.{MayPoll}
use unix_programming.PollChat.Told.{Delivered, on_data-Delivered}
use unix_programming.PollChat.Round.{MayRun, run-IsRoom}

abbrev watching : PollFd
watching = record {
  fd = none;
  events = record { pollin = true; pollout = false; others = true };
  revents = quiet;
}

abbrev one : Chat
one = record {
  fds =
      record watching { fd = some 3 }
      ∷ record watching { fd = some 8 }
      ∷ watching
      ∷ watching
      ∷ watching
      ∷ watching
      ∷ [];
  user_counter = 1;
  users = λ x. record { write_buf = none; buf = 0 ∷ [] };
}

one-IsRoom : IsRoom 3 one
unfolding until_nul
one-IsRoom = record {
  size = refl;
  limit = omega arith;
  listens = refl;
  entries = at;
  apart = λ i j a b c d e. omega arith;
  texts = λ x. record { text = []; ends = refl };
}
  where
    at : (i : ℕ) → 0 < i → i ≤ 1 → IsUser 3 (entry one.fds i).fd
    at zero a b = absurd (omega arith)
    at (suc zero) a b = record { fd = 8; at = refl; small = omega arith; client = omega arith }
    at (suc (suc i)) a b = absurd (omega arith)

on_data-Delivered_example : Gives (Delivered 3 1 8 (codes "hi") one) (
    on_data
      (record { ready = λ x. quiet; accepts = none; recvs = λ x. bytes (codes "hi") })
      1
      8
      one)
on_data-Delivered_example =
    on_data-Delivered
      (record { ready = λ x. quiet; accepts = none; recvs = λ x. bytes (codes "hi") }) 3 1 8 one
      (codes "hi") one-IsRoom (omega arith) refl (omega arith)

abbrev only_readable : ℕ → ℕ → Ready
only_readable fd x = record quiet { readable = x == fd }

-- a second user comes
abbrev comes : Calls
comes = record { ready = only_readable 3; accepts = some 7; recvs = λ x. again }

-- it says hi
abbrev says : Calls
says = record {
  ready = only_readable 7;
  accepts = none;
  recvs = λ x. if x == 7 then bytes (codes "hi") else again;
}

-- the first user can be written to
abbrev reads : Calls
reads = record {
  ready = λ x. record quiet { writable = x == 8 };
  accepts = none;
  recvs = λ x. again;
}

comes-MayPoll : MayPoll 3 comes one
comes-MayPoll = record {
  no_error = refl;
  no_hang_up = refl;
  not_writable = refl;
  fresh = λ connfd came.
      let e : connfd ≡ 7 = cc in (omega arith, omega arith, λ i a b. other i connfd e a b);
}
  where
    other : (i connfd : ℕ) → connfd ≡ 7 → 0 < i → i ≤ 1 → (entry one.fds i).fd ≢ some connfd
    other zero connfd e a b = absurd (omega arith)
    other (suc zero) connfd e a b = λ p. let q : ◌≡◌ {A = ℕ} 8 connfd = cc in absurd (omega arith)
    other (suc (suc i)) connfd e a b = absurd (omega arith)

nothing_came :
    (s : Chat) (k : Calls)
    → k.accepts ≡ none
    → (k.ready 3).error ≡ false
    → (k.ready 3).hung_up ≡ false
    → (k.ready 3).writable ≡ false
    → MayPoll 3 k s
nothing_came s k e a b c = record {
  no_error = a;
  no_hang_up = b;
  not_writable = c;
  fresh = λ connfd came. absurd (cc);
}

day-MayRun : MayRun 3 (some comes ∷ some says ∷ none ∷ []) one
unfolding run round polled visits visit on_connection on_data on_writable tell_others put_user
    remove less_one filled
day-MayRun = (comes-MayPoll, (nothing_came _ says refl refl refl refl, tt))

run-IsRoom_example : Gives (λ r. IsRoom 3 r.0) (run (some comes ∷ some says ∷ none ∷ []) 3 one)
run-IsRoom_example = run-IsRoom (some comes ∷ some says ∷ none ∷ []) 3 one one-IsRoom day-MayRun

passes_it_on :
    Gives
      (λ r. r.1 ≡ nonblocking 7 ∷ send_text 8 (codes "hi") ∷ [])
      (run (some comes ∷ some says ∷ some reads ∷ []) 3 one)
unfolding run round polled visits visit on_connection on_data on_writable tell_others put_user
    remove less_one filled until_nul
passes_it_on = Gives.gives refl

-- POLLOUT is never taken out of the events that are waited for.
keeps_pollout :
    Gives
      (λ r. (entry r.0.fds 1).events.pollout ≡ true)
      (run (some comes ∷ some says ∷ some reads ∷ []) 3 one)
unfolding run round polled visits visit on_connection on_data on_writable tell_others put_user
    remove less_one filled until_nul
keeps_pollout = Gives.gives refl
