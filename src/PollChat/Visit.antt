-- ===== src/PollChat/Visit.antt =====
-- A turn of the loop of socket/io_multiplexing/io_chatroom_server.c at a client's entry.
use unix_programming.Base.{
  ℕ, ◌+◌, ◌≤◌, ◌<◌, ◌≡◌, ◌≢◌, refl, false, some, [], ◌∷◌, arith, length, get_elem?-in, ◌>>=◌, Gives,
  gives, Gives-map, Bool-cases, inl, inr,
}
use unix_programming.PollChat.{
  fd_limit, PollFd, Chat, Calls, has_fd, remove, filled, on_data, bytes, closed, again, broken,
  Received, visit,
}
use unix_programming.PollChat.Room.{nobody, entry, IsRoom, Turned, put_user-some, filled-IsText}
use unix_programming.PollChat.Turns.{remove-Turned, on_writable-Turned}
use unix_programming.PollChat.Told.{with_buf, with_buf-IsRoom, on_data-Delivered}

module _ (listenfd i connfd : ℕ) (s : Chat) (h : IsRoom listenfd s) where
  cleared : Chat
  cleared = with_buf connfd (filled []) s

  cleared-IsRoom : IsRoom listenfd cleared
  unfolding cleared
  cleared-IsRoom = with_buf-IsRoom listenfd connfd s h (filled []) (filled-IsText [] (omega arith))

  -- a recv that brings nothing
  cleared-Turned : Turned listenfd i s (record { chat = cleared; acts = []; next = i + 1 })
  unfolding cleared
  cleared-Turned = record { room = cleared-IsRoom; less = omega arith; onward = omega arith }

  removed-Turned : 0 < i → i ≤ s.user_counter → Gives (Turned listenfd i s) (remove i cleared)
  unfolding cleared
  removed-Turned p q =
      Gives-map (remove-Turned listenfd cleared cleared-IsRoom i p q)
        λ r t. record { room = t.room; less = t.less; onward = t.onward }

on_data-Turned :
    (k : Calls) (listenfd i connfd : ℕ) (s : Chat) (r : Received)
    → IsRoom listenfd s
    → connfd < fd_limit
    → 0 < i
    → i ≤ s.user_counter
    → k.recvs connfd ≡ r
    → Gives (Turned listenfd i s) (on_data k i connfd s)
unfolding on_data cleared
on_data-Turned k listenfd i connfd s (bytes (b ∷ bs)) h small p q e =
    Gives-map (on_data-Delivered k listenfd i connfd s (b ∷ bs) h small e (omega arith))
      λ r d. d.turned
on_data-Turned k listenfd i connfd s (bytes []) h small p q e =
    rw (put_user-some s.users connfd (record (s.users connfd) { buf = filled [] }) small, ◌>>=◌)
      (rw e (gives (cleared-Turned listenfd i connfd s h)))
on_data-Turned k listenfd i connfd s closed h small p q e =
    rw (put_user-some s.users connfd (record (s.users connfd) { buf = filled [] }) small, ◌>>=◌)
      (rw e (gives (cleared-Turned listenfd i connfd s h)))
on_data-Turned k listenfd i connfd s again h small p q e =
    rw (put_user-some s.users connfd (record (s.users connfd) { buf = filled [] }) small, ◌>>=◌)
      (rw e (gives (cleared-Turned listenfd i connfd s h)))
on_data-Turned k listenfd i connfd s broken h small p q e =
    rw (put_user-some s.users connfd (record (s.users connfd) { buf = filled [] }) small, ◌>>=◌)
      (rw e (removed-Turned listenfd i connfd s h p q))

-- a turn at a client's entry
pub visit-Turned :
    (k : Calls) (listenfd i : ℕ) (s : Chat)
    → IsRoom listenfd s
    → 0 < i
    → i ≤ s.user_counter
    → Gives (Turned listenfd i s) (visit k listenfd i s)
unfolding visit
visit-Turned k listenfd i s h p q =
    let e = entry s.fds i in
    let user = h.entries i p q in
    let inside : i < length s.fds = (let z = h.size in let y = h.limit in omega arith) in
    let client = user.client in
    let other : has_fd listenfd e ≡ false = has_other e user.fd user.at client in
    let stays : Gives (Turned listenfd i s) (some (record { chat = s; acts = []; next = i + 1 })) =
      gives (record { room = h; less = omega arith; onward = omega arith }) in
    rw (get_elem?-in s.fds i nobody inside, ◌>>=◌)
      (rw other (elim (Bool-cases e.revents.error) [
        | inl a ↦ rw a stays
        | inr a ↦ rw a (elim (Bool-cases e.revents.hung_up) [
          | inl b ↦ rw b (remove-Turned listenfd s h i p q)
          | inr b ↦ rw b (elim (Bool-cases e.revents.readable) [
            | inl c ↦ rw c (
                rw (user.at, ◌>>=◌)
                  (on_data-Turned k listenfd i user.fd s (k.recvs user.fd) h user.small p q refl))
            | inr c ↦ rw c (elim (Bool-cases e.revents.writable) [
              | inl d ↦
                  rw d
                    (rw (user.at, ◌>>=◌) (on_writable-Turned listenfd s h i user.fd p q user.small))
              | inr d ↦ rw d stays
            ])
          ])
        ])
      ]))
  where
    has_other : (e : PollFd) (fd : ℕ) → e.fd ≡ some fd → fd ≢ listenfd → has_fd listenfd e ≡ false
    has_other e fd at ne = rw at (ground arith)
