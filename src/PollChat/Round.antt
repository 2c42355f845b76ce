-- ===== src/PollChat/Round.antt =====
-- The loops of socket/io_multiplexing/io_chatroom_server.c end and keep the table of users.
use unix_programming.Base.{
  ℕ, zero, suc, ◌+◌, ◌-◌, ◌≤◌, ◌<◌, ◌≡◌, refl, ap, sym, ◌∙◌, true, false, Option, none, some, List,
  [], ◌∷◌, arith, OnSome, OnSome-at, ltb, length, get_elem?-in, ◌>>=◌, Gives, gives, Gives-inv,
  Bool-cases, inl, inr, subst,
}
use unix_programming.PollChat.{
  Ready, PollFd, Chat, Calls, Action, has_fd, visit, visits, polled, round, run,
}
use unix_programming.PollChat.Room.{nobody, entry, IsRoom, same-IsRoom}
use unix_programming.PollChat.Visit.{visit-Turned}
use unix_programming.PollChat.Arrival.{MayPoll, Opened, on_connection-Opened}

-- the turn at the listening socket
visit-Opened :
    (k : Calls) (listenfd : ℕ) (s : Chat)
    → IsRoom listenfd s
    → MayPoll listenfd k s
    → (entry s.fds 0).revents ≡ k.ready listenfd
    → Gives (Opened listenfd s) (visit k listenfd 0 s)
unfolding visit
visit-Opened k listenfd s h m polled_first =
    let e = entry s.fds 0 in
    let inside : 0 < length s.fds = (let z = h.size in omega arith) in
    let listens : has_fd listenfd e ≡ true = has_it e h.listens in
    let no_error : e.revents.error ≡ false =
      ap (λ (r : Ready). r.error) polled_first ∙ m.no_error in
    let no_hang_up : e.revents.hung_up ≡ false =
      ap (λ (r : Ready). r.hung_up) polled_first ∙ m.no_hang_up in
    let not_writable : e.revents.writable ≡ false =
      ap (λ (r : Ready). r.writable) polled_first ∙ m.not_writable in
    rw (get_elem?-in s.fds 0 nobody inside, ◌>>=◌)
      (rw listens (elim (Bool-cases e.revents.readable) [
        | inl a ↦ rw a (on_connection-Opened k listenfd s h m)
        | inr a ↦
            rw (a, no_error, no_hang_up, not_writable)
              (gives (record { room = h; first = refl; count = omega arith }))
      ]))
  where
    has_it : (e : PollFd) → e.fd ≡ some listenfd → has_fd listenfd e ≡ true
    has_it e at = rw at (ground arith)

-- from a client's entry on: fuel above the number of entries that are left is enough
visits-IsRoom :
    (fuel : ℕ) (k : Calls) (listenfd i : ℕ) (s : Chat)
    → IsRoom listenfd s
    → 0 < i
    → s.user_counter + 1 - i < fuel
    → Gives (λ r. IsRoom listenfd r.0) (visits fuel k listenfd i s)
unfolding visits
visits-IsRoom zero k listenfd i s h p f = absurd (omega arith)
visits-IsRoom (suc fuel) k listenfd i s h p f = elim (Bool-cases (ltb i (s.user_counter + 1))) [
  | inr done ↦ rw done (gives h)
  | inl more ↦
      let (r, run1, t) = Gives-inv (visit-Turned k listenfd i s h p (ground arith)) in
      let less = t.less in
      let below : i < s.user_counter + 1 = ground arith in
      let (end, run2, kept) =
        Gives-inv (visits-IsRoom fuel k listenfd r.next r.chat t.room t.onward (omega arith)) in
      rw (more, run1, ◌>>=◌) (rw (run2, ◌>>=◌) (gives kept))
]

polled-fd :
    (ready : ℕ → Ready) (n : ℕ) (es : List PollFd) (i : ℕ)
    → (entry (polled ready n es) i).fd ≡ (entry es i).fd
unfolding polled
polled-fd ready zero es i = refl
polled-fd ready (suc n) [] i = refl
polled-fd ready (suc n) (e ∷ es) zero = refl
polled-fd ready (suc n) (e ∷ es) (suc i) = polled-fd ready n es i

length-polled :
    (ready : ℕ → Ready) (n : ℕ) (es : List PollFd) → length (polled ready n es) ≡ length es
unfolding polled
length-polled ready zero es = refl
length-polled ready (suc n) [] = refl
length-polled ready (suc n) (e ∷ es) = ap suc (length-polled ready n es)

polled-first :
    (ready : ℕ → Ready) (n fd : ℕ) (es : List PollFd)
    → (entry es 0).fd ≡ some fd
    → 0 < n
    → (entry (polled ready n es) 0).revents ≡ ready fd
unfolding polled
polled-first ready zero fd es h p = absurd (omega arith)
polled-first ready (suc n) fd [] h p = absurd (cc)
polled-first ready (suc n) fd (e ∷ es) h p = rw h

-- from the listening socket on
from_start-IsRoom :
    (fuel : ℕ) (k : Calls) (listenfd : ℕ) (s : Chat)
    → IsRoom listenfd s
    → MayPoll listenfd k s
    → (entry s.fds 0).revents ≡ k.ready listenfd
    → s.user_counter + 2 ≤ fuel
    → Gives (λ r. IsRoom listenfd r.0) (visits (suc fuel) k listenfd 0 s)
unfolding visits
from_start-IsRoom fuel k listenfd s h m e f =
    let some_entry : ltb 0 (s.user_counter + 1) ≡ true = ground arith in
    let (r, run1, t) = Gives-inv (visit-Opened k listenfd s h m e) in
    let first = t.first in
    let count = t.count in
    let (end, run2, kept) =
      Gives-inv (visits-IsRoom fuel k listenfd r.next r.chat t.room (omega arith) (omega arith)) in
    rw (some_entry, run1, ◌>>=◌) (rw (run2, ◌>>=◌) (gives kept))

round-IsRoom :
    (k : Calls) (listenfd : ℕ) (s : Chat)
    → IsRoom listenfd s
    → MayPoll listenfd k s
    → Gives (λ r. IsRoom listenfd r.0) (round k listenfd s)
unfolding round
round-IsRoom k listenfd s h m =
    let n = s.user_counter + 1 in
    let fds = polled k.ready n s.fds in
    let v : Chat = record s { fds = fds } in
    let room : IsRoom listenfd v =
      same-IsRoom listenfd s fds s.users h (length-polled k.ready n s.fds)
        (polled-fd k.ready n s.fds) h.texts in
    let may : MayPoll listenfd k v = record {
      no_error = m.no_error;
      no_hang_up = m.no_hang_up;
      not_writable = m.not_writable;
      fresh = λ connfd came.
          let (small, client, free) = m.fresh connfd came in
          (small, client, λ i p q e. free i p q (sym (polled-fd k.ready n s.fds i) ∙ e));
    } in
    let fuel : suc (s.user_counter + 2) ≡ s.user_counter + 3 = omega arith in
    subst (λ f. Gives (λ r. IsRoom listenfd r.0) (visits f k listenfd 0 v)) fuel
      (from_start-IsRoom (s.user_counter + 2) k listenfd v room may
        (polled-first k.ready n listenfd s.fds h.listens (omega arith)) (omega arith))

-- what poll and accept may report in each round
abbrev pub MayRun : (listenfd : ℕ) → List (Option Calls) → Chat → Type 0
MayRun listenfd [] s = Unit
MayRun listenfd (none ∷ ks) s = Unit
MayRun listenfd (some k ∷ ks) s =
    MayPoll listenfd k s × OnSome (λ r. MayRun listenfd ks r.0) (round k listenfd s)

-- Where the buffer of every entry of `users` holds a C string at the start, which malloc does not
-- promise, and accept gives no descriptor from FD_LIMIT on and none that is in use, and the listening
-- socket reports nothing but connections: from a table in order, every round of the server ends within
-- the model's fuel, makes no access outside of fds, users or a buffer, and leaves the table in order.
-- In order it holds the listening socket and behind it at most five clients, all different and below
-- FD_LIMIT.
pub run-IsRoom :
    (ks : List (Option Calls)) (listenfd : ℕ) (s : Chat)
    → IsRoom listenfd s
    → MayRun listenfd ks s
    → Gives (λ r. IsRoom listenfd r.0) (run ks listenfd s)
unfolding run
run-IsRoom [] listenfd s h m = gives h
run-IsRoom (none ∷ ks) listenfd s h m = gives h
run-IsRoom (some k ∷ ks) listenfd s h (m, later) =
    let ((t, acts), run1, kept) = Gives-inv (round-IsRoom k listenfd s h m) in
    let l =
      OnSome-at (λ (r : Chat × List Action). MayRun listenfd ks r.0) (round k listenfd s) later
        run1 in
    let ((u, more), run2, done) = Gives-inv (run-IsRoom ks listenfd t kept l) in
    rw (run1, ◌>>=◌) (rw (run2, ◌>>=◌) (gives done))
