-- ===== src/PollChat/Turns.antt =====
-- One turn of the loop over the entries in socket/io_multiplexing/io_chatroom_server.c: a client
-- comes, leaves, is read from or is written to.
use unix_programming.Base.{
  ℕ, zero, suc, ◌≤◌, ◌<◌, ◌≡◌, ◌≢◌, refl, ap, sym, ◌∙◌, true, false, none, some, arith, ◌==◌,
  length, set, length-set, get_or-set, get_elem?-in, ◌>>=◌, Gives, gives, Bool-cases, Option-cases,
  inl, inr, subst,
}
use unix_programming.PollChat.{fd_limit, PollFd, User, Chat, less_one, remove, on_writable}
use unix_programming.PollChat.Room.{
  nobody, entry, IsUser, IsText, IsRoom, Turned, set_user, put_user-some, set_user-texts,
  same-IsRoom, set-same,
}

less_one-some : (n : ℕ) → 0 < n → (m : ℕ) × (less_one n ≡ some m) × (n ≡ suc m)
unfolding less_one
less_one-some zero h = absurd (omega arith)
less_one-some (suc m) h = (m, refl, refl)

module _ (listenfd : ℕ) (s : Chat) (h : IsRoom listenfd s) where
  -- an index that is in use lies in the array
  inside : (i : ℕ) → i ≤ s.user_counter → i < length s.fds
  inside i le = let z = h.size in let y = h.limit in omega arith

  remove-IsRoom :
      (i n : ℕ) (users : ℕ → User)
      → 0 < i
      → i ≤ s.user_counter
      → s.user_counter ≡ suc n
      → ((x : ℕ) → IsText (users x).buf)
      → IsRoom listenfd (record {
        fds = set s.fds i (entry s.fds s.user_counter);
        user_counter = n;
        users = users;
      })
  remove-IsRoom i n users p q count texts =
      let last = s.user_counter in
      let at = λ (j : ℕ). get_or-set s.fds i j (entry s.fds last) nobody (inside i q) in
      let moved : (j : ℕ)
          → i ≡ j
          → (entry (set s.fds i (entry s.fds last)) j).fd ≡ (entry s.fds last).fd =
        λ j e.
          (let b : (i == j) ≡ true = ground arith in ap (λ (x : PollFd). x.fd) (rw b at (at j))) in
      let kept : (j : ℕ)
          → i ≢ j
          → (entry (set s.fds i (entry s.fds last)) j).fd ≡ (entry s.fds j).fd =
        λ j e.
          (let b : (i == j) ≡ false = ground arith in ap (λ (x : PollFd). x.fd) (rw b at (at j))) in
      record {
        size = length-set s.fds i (entry s.fds last) ∙ h.size;
        limit = (let y = h.limit in omega arith);
        listens = kept 0 (omega arith) ∙ h.listens;
        entries = λ j a b. elim (Bool-cases (i == j)) [
          | inl e ↦
              subst (IsUser listenfd) (sym (moved j (ground arith)))
                (h.entries last (omega arith) (omega arith))
          | inr e ↦
              subst (IsUser listenfd) (sym (kept j (ground arith))) (h.entries j a (omega arith))
        ];
        apart = λ j k a b c d e. elim (Bool-cases (i == j)) [
          | inl x ↦ elim (Bool-cases (i == k)) [
            | inl y ↦ ground arith
            | inr y ↦
                let z =
                  h.apart last k (omega arith) (omega arith) c (omega arith)
                    (sym (moved j (ground arith)) ∙ e ∙ kept k (ground arith)) in
                absurd (omega arith)
          ]
          | inr x ↦ elim (Bool-cases (i == k)) [
            | inl y ↦
                let z =
                  h.apart j last a (omega arith) (omega arith) (omega arith)
                    (sym (kept j (ground arith)) ∙ e ∙ moved k (ground arith)) in
                absurd (omega arith)
            | inr y ↦
                h.apart j k a (omega arith) c (omega arith)
                  (sym (kept j (ground arith)) ∙ e ∙ kept k (ground arith))
          ]
        ];
        texts = texts;
      }

  pub remove-Turned :
      (i : ℕ) → 0 < i → i ≤ s.user_counter → Gives (Turned listenfd i s) (remove i s)
  unfolding remove
  remove-Turned i p q =
      let last = s.user_counter in
      let gone = h.entries i p q in
      let end = h.entries last (omega arith) (omega arith) in
      let (n, pre, count) = less_one-some last (omega arith) in
      let first = get_elem?-in s.fds i nobody (inside i q) in
      let second = get_elem?-in s.fds last nobody (inside last (omega arith)) in
      let put = put_user-some s.users gone.fd (s.users end.fd) gone.small in
      rw (first, ◌>>=◌)
        (rw (second, ◌>>=◌)
          (rw (gone.at, ◌>>=◌)
            (rw (end.at, ◌>>=◌)
              (rw (pre, ◌>>=◌)
                (rw (put, ◌>>=◌)
                  (gives (record {
                    room =
                        remove-IsRoom i n (set_user s.users gone.fd (s.users end.fd)) p q count (
                          set_user-texts s.users gone.fd (s.users end.fd) h.texts (h.texts end.fd));
                    less = omega arith;
                    onward = p;
                  })))))))

  -- a write of C strings into the buffers of users
  cleared-IsRoom :
      (fd : ℕ) (u : User)
      → IsText u.buf
      → IsRoom listenfd (record s { users = set_user s.users fd u })
  cleared-IsRoom fd u t =
      same-IsRoom listenfd s s.fds (set_user s.users fd u) h refl (λ i. refl)
        (set_user-texts s.users fd u h.texts t)

  pub on_writable-Turned :
      (i connfd : ℕ)
      → 0 < i
      → i ≤ s.user_counter
      → connfd < fd_limit
      → Gives (Turned listenfd i s) (on_writable i connfd (entry s.fds i) s)
  unfolding on_writable
  on_writable-Turned i connfd p q small = elim (Option-cases (s.users connfd).write_buf) [
    | inl nothing ↦
        rw (nothing, on_writable)
          (gives (record { room = h; less = omega arith; onward = omega arith }))
    | inr (x, some_text) ↦
        let t = h.texts x in
        let u : User = record (s.users connfd) { write_buf = none } in
        let put = put_user-some s.users connfd u small in
        rw (some_text, on_writable)
          (rw (t.ends, ◌>>=◌)
            (rw (put, ◌>>=◌)
              (gives (record {
                room =
                    same-IsRoom listenfd s _ (set_user s.users connfd u) h (length-set s.fds i _)
                      (λ j. set-same s.fds i j _ (inside i q) refl)
                      (set_user-texts s.users connfd u h.texts (h.texts connfd));
                less = omega arith;
                onward = omega arith;
              }))))
  ]
