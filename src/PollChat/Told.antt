-- ===== src/PollChat/Told.antt =====
-- How a message reaches the other users of socket/io_multiplexing/io_chatroom_server.c.
use unix_programming.Base.{
  ℕ, zero, suc, ◌+◌, ◌≤◌, ◌<◌, ◌≡◌, ◌≢◌, refl, ap, sym, ◌∙◌, true, false, some, List, [], arith,
  ◌==◌, length, set, take, length-set, length-take, get_elem?-in, ◌>>=◌, Gives, gives, Gives-map,
  Gives-inv, Bool-cases, inl, inr, get_or-set_same, get_or-set_other,
}
use unix_programming.PollChat.{
  fd_limit, PollFd, Chat, Calls, Step, has_fd, filled, tell_others, on_data, bytes,
}
use unix_programming.PollChat.Room.{
  nobody, entry, IsText, IsRoom, Turned, set_user, put_user-some, set_user-texts, same-IsRoom,
  set-same, filled-IsText,
}

-- What telling the users from the index j on leaves: each of them but the sender is to be sent the
-- sender's buffer as soon as it can be written to; the buffers are the same.
pub record Told (listenfd connfd j : ℕ) (s t : Chat) : Type 0 where
  pub room : IsRoom listenfd t
  pub count : t.user_counter ≡ s.user_counter
  pub fds : (i : ℕ) → (entry t.fds i).fd ≡ (entry s.fds i).fd
  pub bufs : (x : ℕ) → (t.users x).buf ≡ (s.users x).buf
  pub own : (t.users connfd).write_buf ≡ (s.users connfd).write_buf
  pub stays : (x : ℕ) → (s.users x).write_buf ≡ some connfd → (t.users x).write_buf ≡ some connfd
  pub stays_watched :
      (i : ℕ) → (entry s.fds i).events.pollout ≡ true → (entry t.fds i).events.pollout ≡ true
  pub told :
      (i x : ℕ)
      → j ≤ i
      → i ≤ s.user_counter
      → (entry s.fds i).fd ≡ some x
      → x ≢ connfd
      → ((t.users x).write_buf ≡ some connfd) × ((entry t.fds i).events.pollout ≡ true)

-- the user at the index j is told
abbrev told_one : (connfd fd j : ℕ) → Chat → Chat
told_one connfd fd j s = record s {
  fds = set s.fds j (record {
    fd = some fd;
    revents = (entry s.fds j).revents;
    events = record { pollin = (entry s.fds j).events.pollin; pollout = true; others = true };
  });
  users = set_user s.users fd (record (s.users fd) { write_buf = some connfd });
}

told_one-IsRoom :
    (listenfd connfd fd j : ℕ) (s : Chat)
    → IsRoom listenfd s
    → j < length s.fds
    → (entry s.fds j).fd ≡ some fd
    → IsRoom listenfd (told_one connfd fd j s)
told_one-IsRoom listenfd connfd fd j s h inside at =
    same-IsRoom listenfd s _ _ h (length-set s.fds j _) (λ i. set-same s.fds j i _ inside (sym at))
      (set_user-texts s.users fd _ h.texts (h.texts fd))

has_fd-of : (e : PollFd) (fd connfd : ℕ) → e.fd ≡ some fd → has_fd connfd e ≡ (fd == connfd)
has_fd-of e fd connfd h = rw h

-- the told user, and then the others
then-Told :
    (listenfd connfd fd j : ℕ) (s t : Chat)
    → j < length s.fds
    → (entry s.fds j).fd ≡ some fd
    → fd ≢ connfd
    → Told listenfd connfd (j + 1) (told_one connfd fd j s) t
    → Told listenfd connfd j s t
then-Told listenfd connfd fd j s t inside at other r =
    let v = told_one connfd fd j s in
    let buf : (x : ℕ) → (v.users x).buf ≡ (s.users x).buf = λ x. ground arith in
    let self : (v.users connfd).write_buf ≡ (s.users connfd).write_buf = ground arith in
    let stay : (x : ℕ) → (s.users x).write_buf ≡ some connfd → (v.users x).write_buf ≡ some connfd =
      λ x e. ground arith in
    let here : (v.users fd).write_buf ≡ some connfd = ground arith in
    let same : (i : ℕ) → (entry v.fds i).fd ≡ (entry s.fds i).fd =
      λ i. set-same s.fds j i _ inside (sym at) in
    let watched : (entry v.fds j).events.pollout ≡ true =
      ap (λ (e : PollFd). e.events.pollout) (get_or-set_same s.fds j _ nobody inside) in
    let stay_watched : (i : ℕ)
        → (entry s.fds i).events.pollout ≡ true
        → (entry v.fds i).events.pollout ≡ true =
      λ i e. elim (Bool-cases (i == j)) [
        | inl x ↦ (let z : i ≡ j = ground arith in rw z watched)
        | inr x ↦
            ap (λ (e : PollFd). e.events.pollout)
              (get_or-set_other s.fds i j _ nobody (ground arith))
            ∙ e
      ] in
    record {
      room = r.room;
      count = r.count;
      fds = λ i. r.fds i ∙ same i;
      bufs = λ x. r.bufs x ∙ buf x;
      own = r.own ∙ self;
      stays = λ x e. r.stays x (stay x e);
      stays_watched = λ i e. r.stays_watched i (stay_watched i e);
      told = λ i x a b c d. elim (Bool-cases (i == j)) [
        | inl e ↦
            let z : i ≡ j = ground arith in
            let y : x ≡ fd = inner (sym c ∙ ap (λ k. (entry s.fds k).fd) z ∙ at) in
            (rw y (r.stays fd here), r.stays_watched i (rw z watched))
        | inr e ↦ r.told i x (ground arith) b (same i ∙ c) d
      ];
    }
  where
    inner : {a b : ℕ} → some a ≡ some b → a ≡ b
    inner e = cc

-- the sender is passed over
skip-Told :
    (listenfd connfd j : ℕ) (s t : Chat)
    → (entry s.fds j).fd ≡ some connfd
    → Told listenfd connfd (j + 1) s t
    → Told listenfd connfd j s t
skip-Told listenfd connfd j s t at r = record {
  room = r.room;
  count = r.count;
  fds = r.fds;
  bufs = r.bufs;
  own = r.own;
  stays = r.stays;
  stays_watched = r.stays_watched;
  told = λ i x a b c d. elim (Bool-cases (i == j)) [
    | inl e ↦
        let z : i ≡ j = ground arith in
        let y = sym c ∙ ap (λ k. (entry s.fds k).fd) z ∙ at in absurd (d (cc))
    | inr e ↦ r.told i x (ground arith) b c d
  ];
}

tell_others-Told :
    (left listenfd connfd j : ℕ) (s : Chat)
    → IsRoom listenfd s
    → 0 < j
    → j + left ≡ s.user_counter + 1
    → Gives (Told listenfd connfd j s) (tell_others connfd left j s)
unfolding tell_others
tell_others-Told zero listenfd connfd j s h p e = gives (record {
  room = h;
  count = refl;
  fds = λ i. refl;
  bufs = λ x. refl;
  own = refl;
  stays = λ x q. q;
  stays_watched = λ i q. q;
  told = λ i x a b c d. absurd (omega arith);
})
tell_others-Told (suc left) listenfd connfd j s h p e =
    let user = h.entries j p (omega arith) in
    let inside : j < length s.fds = (let z = h.size in let y = h.limit in omega arith) in
    let has = has_fd-of (entry s.fds j) user.fd connfd user.at in
    rw (get_elem?-in s.fds j nobody inside, ◌>>=◌)
      (elim (Bool-cases (user.fd == connfd)) [
        | inl same ↦
            let z : user.fd ≡ connfd = ground arith in
            rw (has, same)
              (Gives-map
                (tell_others-Told left listenfd connfd (j + 1) s h (omega arith) (omega arith))
                λ t r. skip-Told listenfd connfd j s t (user.at ∙ ap some z) r)
        | inr other ↦
            rw (has, other)
              (rw (user.at, ◌>>=◌)
                (rw (put_user-some s.users user.fd _ user.small, ◌>>=◌)
                  (Gives-map
                    (tell_others-Told left listenfd connfd (j + 1) (told_one connfd user.fd j s)
                      (told_one-IsRoom listenfd connfd user.fd j s h inside user.at) (omega arith)
                      (omega arith))
                    λ t r.
                      then-Told listenfd connfd user.fd j s t inside user.at (ground arith) r)))
      ])

-- What a message of `bs` leaves: the sender's buffer holds it, and every other user is to be sent
-- the sender's buffer as soon as it can be written to.
pub record Delivered (listenfd i connfd : ℕ) (bs : List ℕ) (s : Chat) (r : Step) : Type 0 where
  pub turned : Turned listenfd i s r
  pub acts : r.acts ≡ []
  pub buf : (r.chat.users connfd).buf ≡ filled bs
  pub own : (r.chat.users connfd).write_buf ≡ (s.users connfd).write_buf
  pub told :
      (j x : ℕ)
      → 0 < j
      → j ≤ s.user_counter
      → (entry s.fds j).fd ≡ some x
      → x ≢ connfd
      → ((r.chat.users x).write_buf ≡ some connfd) × ((entry r.chat.fds j).events.pollout ≡ true)

-- the user at `connfd` with another buffer
abbrev pub with_buf : (connfd : ℕ) → List ℕ → Chat → Chat
with_buf connfd b s = record s {
  users = set_user s.users connfd (record (s.users connfd) { buf = b });
}

module _ (listenfd connfd : ℕ) (s : Chat) (h : IsRoom listenfd s) where
  pub with_buf-IsRoom : (b : List ℕ) → IsText b → IsRoom listenfd (with_buf connfd b s)
  with_buf-IsRoom b t =
      same-IsRoom listenfd s s.fds _ h refl (λ j. refl) (set_user-texts s.users connfd _ h.texts t)

  Told-Delivered :
      (i : ℕ) (bs : List ℕ) (t : Chat)
      → Told listenfd connfd 1 (with_buf connfd bs s) t
      → (bs' : List ℕ) → bs ≡ filled bs'
      → Delivered listenfd i connfd bs' s (record { chat = t; acts = []; next = i + 1 })
  Told-Delivered i bs t r bs' e =
      let c = r.count in
      record {
        turned = record { room = r.room; less = omega arith; onward = omega arith };
        acts = refl;
        buf = r.bufs connfd ∙ own_buf ∙ e;
        own = r.own ∙ own_write;
        told = r.told;
      }
    where
      own_buf : ((with_buf connfd bs s).users connfd).buf ≡ bs
      own_buf = ground arith

      own_write : ((with_buf connfd bs s).users connfd).write_buf ≡ (s.users connfd).write_buf
      own_write = ground arith

-- Bytes from a client, at most 63 of them: they are put into its buffer, with zeros behind them,
-- and every other user is to be sent that buffer as soon as it can be written to.
pub on_data-Delivered :
    (k : Calls) (listenfd i connfd : ℕ) (s : Chat) (bs : List ℕ)
    → IsRoom listenfd s
    → connfd < fd_limit
    → k.recvs connfd ≡ bytes bs
    → 0 < length bs
    → Gives (Delivered listenfd i connfd (take 63 bs) s) (on_data k i connfd s)
unfolding on_data
on_data-Delivered k listenfd i connfd s bs h small e some_bytes =
    let got = take 63 bs in
    let n = length-take 63 bs in
    let more : (length got == 0) ≡ false = ground arith in
    let text = filled-IsText got (omega arith) in
    let room = with_buf-IsRoom listenfd connfd s h (filled got) text in
    let (t, run, told) = Gives-inv (
      tell_others-Told s.user_counter listenfd connfd 1 (with_buf connfd (filled got) s) room
        (omega arith) (omega arith)) in
    rw (put_user-some s.users connfd (record (s.users connfd) { buf = filled [] }) small, ◌>>=◌)
      (rw (e, more)
        (rw
          (put_user-some s.users connfd (record (s.users connfd) { buf = filled got }) small, ◌>>=◌)
          (rw (run, ◌>>=◌)
            (gives (Told-Delivered listenfd connfd s h i (filled got) t told got refl)))))
