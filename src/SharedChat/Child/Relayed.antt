-- ===== src/SharedChat/Child/Relayed.antt =====
-- How a message goes from one client of socket/ipc/shm.c to the others.
use unix_programming.Base.{
  ℕ, zero, suc, ◌+◌, ◌-◌, ◌*◌, ◌≤◌, ◌<◌, ◌≡◌, ◌≢◌, ◌⊎◌, refl, ap, sym, ◌∙◌, true, false, Bool, some,
  List, [], ◌∷◌, ◌++◌, arith, leb, ◌==◌, length, take, drop, replicate, length-append, length-take,
  length-drop, length-replicate, take-append, drop-append, append_assoc, Gives, gives, subst,
  Bool-cases, inl, inr, take-append_short, drop-append_short, drop-append_long, take-append-drop,
  nil_of_length, take-all, ltb, ltb→lt, not_ltb→le,
}
use unix_programming.SharedChat.{user_limit}
use unix_programming.SharedChat.Child.{
  buffer_size, bytes, client, ChildStep, notify, deliver, write_mem, read_mem, zeros, on_conn,
  on_pipe, child_event, on_conn_data, on_pipe_data,
}

-- a memory in three parts, the middle one being written to
write_middle :
    (at : ℕ) (pre bs cs xs : List ℕ)
    → length pre ≡ at
    → length xs ≤ length bs
    → write_mem at xs (pre ++ (bs ++ cs)) ≡ some (pre ++ (xs ++ (drop (length xs) bs ++ cs)))
unfolding write_mem
write_middle at pre bs cs xs e h =
    let n1 = length-append pre (bs ++ cs) in
    let n2 = length-append bs cs in
    let fits : leb (at + length xs) (length (pre ++ (bs ++ cs))) ≡ true = ground (arith, n1, n2) in
    let front : take at (pre ++ (bs ++ cs)) ≡ pre =
      ap (λ n. take n (pre ++ (bs ++ cs))) (sym e) ∙ take-append pre (bs ++ cs) in
    let back : drop (at + length xs) (pre ++ (bs ++ cs)) ≡ drop (length xs) bs ++ cs =
      drop-append_long (at + length xs) (length xs) pre (bs ++ cs) (omega arith)
      ∙ drop-append_short (length xs) bs cs h in
    rw (fits, front, back)

read_middle :
    (at : ℕ) (pre bs cs : List ℕ)
    → length pre ≡ at
    → read_mem at (length bs) (pre ++ (bs ++ cs)) ≡ some bs
unfolding read_mem
read_middle at pre bs cs e =
    let n1 = length-append pre (bs ++ cs) in
    let n2 = length-append bs cs in
    let fits : leb (at + length bs) (length (pre ++ (bs ++ cs))) ≡ true = ground (arith, n1, n2) in
    let back : drop at (pre ++ (bs ++ cs)) ≡ bs ++ cs =
      ap (λ n. drop n (pre ++ (bs ++ cs))) (sym e) ∙ drop-append pre (bs ++ cs) in
    rw (fits, back, take-append bs cs)

-- reads before and behind the middle part do not see it
read_outside :
    (at n : ℕ) (pre bs bs' cs : List ℕ)
    → length bs' ≡ length bs
    → (at + n ≤ length pre) ⊎ (length pre + length bs ≤ at)
    → read_mem at n (pre ++ (bs' ++ cs)) ≡ read_mem at n (pre ++ (bs ++ cs))
unfolding read_mem
read_outside at n pre bs bs' cs e h =
    let same : length (pre ++ (bs' ++ cs)) ≡ length (pre ++ (bs ++ cs)) = omega (
      arith,
      length-append pre (bs' ++ cs),
      length-append bs' cs,
      length-append pre (bs ++ cs),
      length-append bs cs,
    ) in
    let seen : take n (drop at (pre ++ (bs' ++ cs))) ≡ take n (drop at (pre ++ (bs ++ cs))) =
      sees h in
    rw (same, seen)
  where
    sees :
        (at + n ≤ length pre) ⊎ (length pre + length bs ≤ at)
        → take n (drop at (pre ++ (bs' ++ cs))) ≡ take n (drop at (pre ++ (bs ++ cs)))
    sees (inl before) =
        let short = length-drop at pre in
        let one : (ds : List ℕ) → take n (drop at (pre ++ ds)) ≡ take n (drop at pre) = λ ds.
          ap (take n) (drop-append_short at pre ds (omega arith))
          ∙ take-append_short n (drop at pre) ds (omega arith) in
        one (bs' ++ cs) ∙ sym (one (bs ++ cs))
    sees (inr behind) =
        let k = at - (length pre + length bs) in
        let one : (ds : List ℕ) → length ds ≡ length bs → drop at (pre ++ (ds ++ cs)) ≡ drop k cs =
          λ ds same.
            drop-append_long at (at - length pre) pre (ds ++ cs) (omega arith)
            ∙ drop-append_long (at - length pre) k ds cs (omega arith) in
        ap (take n) (one bs' e ∙ sym (one bs refl))

-- the message with zeros behind it, as long as a buffer
abbrev pub padded : List ℕ → List ℕ
padded bs = bs ++ zeros (buffer_size - length bs)

-- What a message of `bs` leaves: the child goes on and tells the main process its number; any
-- child that is then handed the number sends the message, padded with zeros, to its client; the
-- other buffers are as they were.
pub record Relayed (idx : ℕ) (bs mem : List ℕ) (stop : Bool) (r : ChildStep) : Type 0 where
  pub goes_on : r.stop ≡ stop
  pub told : r.sent ≡ notify idx ∷ []
  pub handed :
      (other : ℕ) (halt : Bool)
      → child_event other (on_pipe (client idx)) halt r.mem
        ≡ some (record { stop = halt; mem = r.mem; sent = deliver (padded bs) ∷ [] })
  pub others :
      (k : ℕ)
      → k ≢ idx
      → read_mem (k * buffer_size) buffer_size r.mem ≡ read_mem (k * buffer_size) buffer_size mem

length-zeros : (n : ℕ) → length (zeros n) ≡ n
unfolding zeros
length-zeros n = length-replicate n 0

drop-zeros : (n k : ℕ) → drop k (zeros n) ≡ zeros (n - k)
unfolding zeros
drop-zeros n zero = let e : n ≡ n - 0 = omega arith in ap (λ (i : ℕ). replicate i 0) e
drop-zeros zero (suc k) =
    let e : 0 ≡ 0 - suc k = omega arith in ap (λ (i : ℕ). replicate {A = ℕ} i 0) e
drop-zeros (suc n) (suc k) =
    let e : n - k ≡ suc n - suc k = omega arith in drop-zeros n k ∙ ap (λ (i : ℕ). replicate i 0) e

length-padded : (bs : List ℕ) → length bs ≤ buffer_size → length (padded bs) ≡ buffer_size
length-padded bs h =
    let n = buffer_size - length bs in omega (arith, length-append bs (zeros n), length-zeros n)

-- the memset and the store of the message, on a memory in three parts
on_conn_parts :
    (idx : ℕ) (pre mid post xs : List ℕ) (stop : Bool)
    → length pre ≡ idx * buffer_size
    → length mid ≡ buffer_size
    → 0 < length xs
    → length xs ≤ 1023
    → on_conn_data idx (bytes xs) stop (pre ++ (mid ++ post))
      ≡ some (record { stop = stop; mem = pre ++ (padded xs ++ post); sent = notify idx ∷ [] })
unfolding on_conn_data
on_conn_parts idx pre mid post xs stop la lb some_bytes small =
    let z = zeros buffer_size in
    let lz = length-zeros buffer_size in
    let clear : write_mem (idx * buffer_size) z (pre ++ (mid ++ post)) ≡ some (pre ++ (z ++ post)) =
      write_middle (idx * buffer_size) pre mid post z la (omega arith)
      ∙ ap (λ ds. some (pre ++ (z ++ (ds ++ post))))
          (nil_of_length (drop (length z) mid) (omega (arith, length-drop (length z) mid))) in
    let all : take 1023 xs ≡ xs = take-all 1023 xs small in
    let nonempty : (length xs == 0) ≡ false = ground arith in
    let store : write_mem (idx * buffer_size) xs (pre ++ (z ++ post))
        ≡ some (pre ++ (padded xs ++ post)) =
      write_middle (idx * buffer_size) pre z post xs la (omega arith)
      ∙ ap (λ ds. some (pre ++ ds))
          (ap (λ ds. xs ++ (ds ++ post)) (drop-zeros buffer_size (length xs))
            ∙ sym (append_assoc xs (zeros (buffer_size - length xs)) post)) in
    simp (clear, all, nonempty, store)

-- where buffer `k` lies against the three parts around buffer `idx`
apart :
    (k idx n : ℕ)
    → k ≢ idx
    → n ≡ idx * buffer_size
    → (k * buffer_size + buffer_size ≤ n) ⊎ (n + buffer_size ≤ k * buffer_size)
apart k idx n ne e = elim (Bool-cases (ltb k idx)) [
  | inl less ↦ let h = ltb→lt k idx less in inl (omega arith)
  | inr more ↦ let h = not_ltb→le k idx more in inr (omega arith)
]

Relayed-parts :
    (idx : ℕ) (pre mid post xs : List ℕ) (stop : Bool)
    → length pre ≡ idx * buffer_size
    → length mid ≡ buffer_size
    → 0 < length xs
    → length xs ≤ 1023
    → Gives
        (Relayed idx xs (pre ++ (mid ++ post)) stop)
        (child_event idx (on_conn (bytes xs)) stop (pre ++ (mid ++ post)))
unfolding child_event
Relayed-parts idx pre mid post xs stop la lb some_bytes small =
    let lp = length-padded xs (omega arith) in
    let read : read_mem (idx * buffer_size) buffer_size (pre ++ (padded xs ++ post))
        ≡ some (padded xs) =
      ap (λ n. read_mem (idx * buffer_size) n (pre ++ (padded xs ++ post))) (sym lp)
      ∙ read_middle (idx * buffer_size) pre (padded xs) post la in
    rw (on_conn_parts idx pre mid post xs stop la lb some_bytes small) (
      gives (record {
        goes_on = refl;
        told = refl;
        handed = λ other halt. handed_on halt (pre ++ (padded xs ++ post)) read;
        others = λ k ne.
            read_outside (k * buffer_size) buffer_size pre mid (padded xs) post (omega arith)
              (rw lb (apart k idx (length pre) ne la));
      }))
  where
    handed_on :
        (halt : Bool) (mem : List ℕ)
        → read_mem (idx * buffer_size) buffer_size mem ≡ some (padded xs)
        → on_pipe_data (client idx) halt mem
          ≡ some (record { stop = halt; mem = mem; sent = deliver (padded xs) ∷ [] })
    handed_on halt mem e = unfold on_pipe_data in (rw e)

-- A message of 1 to 1023 bytes from the client of connection `idx`, below the limit: the child
-- stores it, tells the main process the number of its connection and goes on. Any child that is
-- handed that number, with the memory as it then is, sends its client the message, padded with
-- zeros to the size of a buffer. The buffers of the other connections are unchanged.
pub message-Relayed :
    (idx : ℕ) (xs mem : List ℕ) (stop : Bool)
    → length mem ≡ user_limit * buffer_size
    → idx < user_limit
    → 0 < length xs
    → length xs ≤ 1023
    → Gives (Relayed idx xs mem stop) (child_event idx (on_conn (bytes xs)) stop mem)
message-Relayed idx xs mem stop size below some_bytes small =
    let at = idx * buffer_size in
    let pre = take at mem in
    let rest = drop at mem in
    let joined : pre ++ (take buffer_size rest ++ drop buffer_size rest) ≡ mem =
      ap (λ ds. pre ++ ds) (take-append-drop buffer_size rest) ∙ take-append-drop at mem in
    subst (λ m. Gives (Relayed idx xs m stop) (child_event idx (on_conn (bytes xs)) stop m)) joined
      (Relayed-parts idx pre (take buffer_size rest) (drop buffer_size rest) xs stop
        (omega (arith, length-take at mem))
        (omega (arith, length-take buffer_size rest, length-drop at mem)) some_bytes small)
