-- ===== src/PollChat/Arrival.antt =====
-- A turn of the loop of socket/io_multiplexing/io_chatroom_server.c at the listening socket.
use unix_programming.Base.{
  ℕ, ◌+◌, ◌≤◌, ◌<◌, ◌≡◌, ◌≢◌, refl, ap, sym, ◌∙◌, false, some, arith, ltb, ◌==◌, length, set,
  length-set, ◌>>=◌, Gives, gives, Bool-cases, Option-cases, inl, inr, subst, get_or-set_same,
  get_or-set_other,
}
use unix_programming.PollChat.{user_limit, fd_limit, PollFd, User, Chat, Calls, Step, on_connection}
use unix_programming.PollChat.Room.{
  nobody, entry, IsUser, IsText, IsRoom, put_user-some, set_user-texts,
}

-- What poll and accept may report: nothing but POLLIN on the listening socket, and a descriptor
-- that is not in use, below FD_LIMIT.
pub record MayPoll (listenfd : ℕ) (k : Calls) (s : Chat) : Type 0 where
  pub no_error : (k.ready listenfd).error ≡ false
  pub no_hang_up : (k.ready listenfd).hung_up ≡ false
  pub not_writable : (k.ready listenfd).writable ≡ false
  pub fresh :
      (connfd : ℕ)
      → k.accepts ≡ some connfd
      → (connfd < fd_limit)
        × (connfd ≢ listenfd)
        × ((i : ℕ) → 0 < i → i ≤ s.user_counter → (entry s.fds i).fd ≢ some connfd)

-- what the turn at the listening socket leaves
pub record Opened (listenfd : ℕ) (s : Chat) (r : Step) : Type 0 where
  pub room : IsRoom listenfd r.chat
  pub first : r.next ≡ 1
  pub count : r.chat.user_counter ≤ s.user_counter + 1

entered-IsRoom :
    (listenfd connfd : ℕ) (s : Chat) (e : PollFd) (users : ℕ → User)
    → IsRoom listenfd s
    → s.user_counter < user_limit
    → e.fd ≡ some connfd
    → connfd < fd_limit
    → connfd ≢ listenfd
    → ((i : ℕ) → 0 < i → i ≤ s.user_counter → (entry s.fds i).fd ≢ some connfd)
    → ((x : ℕ) → IsText (users x).buf)
    → IsRoom listenfd (record {
      fds = set s.fds (s.user_counter + 1) e;
      user_counter = s.user_counter + 1;
      users = users;
    })
entered-IsRoom listenfd connfd s e users h room at small client fresh texts =
    let n = s.user_counter + 1 in
    let inside : n < length s.fds = (let z = h.size in omega arith) in
    let new : (entry (set s.fds n e) n).fd ≡ some connfd =
      ap (λ (x : PollFd). x.fd) (get_or-set_same s.fds n e nobody inside) ∙ at in
    let old : (j : ℕ) → j ≢ n → (entry (set s.fds n e) j).fd ≡ (entry s.fds j).fd =
      λ j ne. ap (λ (x : PollFd). x.fd) (get_or-set_other s.fds j n e nobody ne) in
    let at_new : (j : ℕ) → j ≡ n → (entry (set s.fds n e) j).fd ≡ some connfd =
      λ j q. ap (λ k. (entry (set s.fds n e) k).fd) q ∙ new in
    record {
      size = length-set s.fds n e ∙ h.size;
      limit = omega arith;
      listens = old 0 (omega arith) ∙ h.listens;
      entries = λ j a b. elim (Bool-cases (j == n)) [
        | inl q ↦ record {
          fd = connfd;
          at = at_new j (ground arith);
          small = small;
          client = client;
        }
        | inr q ↦
            let ne : j ≢ n = ground arith in
            subst (IsUser listenfd) (sym (old j ne)) (h.entries j a (omega arith))
      ];
      apart = λ i j a b c d q. elim (Bool-cases (i == n)) [
        | inl x ↦ elim (Bool-cases (j == n)) [
          | inl y ↦ ground arith
          | inr y ↦
              let ne : j ≢ n = ground arith in
              absurd (fresh j c (omega arith) (sym (old j ne) ∙ sym q ∙ at_new i (ground arith)))
        ]
        | inr x ↦
            let ni : i ≢ n = ground arith in
            elim (Bool-cases (j == n)) [
              | inl y ↦
                  absurd (fresh i a (omega arith) (sym (old i ni) ∙ q ∙ at_new j (ground arith)))
              | inr y ↦
                  let ne : j ≢ n = ground arith in
                  h.apart i j a (omega arith) c (omega arith) (sym (old i ni) ∙ q ∙ old j ne)
            ]
      ];
      texts = texts;
    }

pub on_connection-Opened :
    (k : Calls) (listenfd : ℕ) (s : Chat)
    → IsRoom listenfd s
    → MayPoll listenfd k s
    → Gives (Opened listenfd s) (on_connection k 0 s)
unfolding on_connection
on_connection-Opened k listenfd s h m = elim (Option-cases k.accepts) [
  | inl nobody_came ↦
      rw (nobody_came, on_connection)
        (gives (record { room = h; first = refl; count = omega arith }))
  | inr (connfd, came) ↦
      let (small, client, free) = m.fresh connfd came in
      rw (came, on_connection)
        (elim (Bool-cases (ltb s.user_counter user_limit)) [
          | inl room ↦ rw room (
              rw (put_user-some s.users connfd (s.users connfd) small, ◌>>=◌)
                (gives (record {
                  room =
                      entered-IsRoom listenfd connfd s _ _ h (ground arith) refl small client free
                        (set_user-texts s.users connfd (s.users connfd) h.texts (h.texts connfd));
                  first = refl;
                  count = omega arith;
                })))
          | inr full ↦ rw full (gives (record { room = h; first = refl; count = omega arith }))
        ])
]
