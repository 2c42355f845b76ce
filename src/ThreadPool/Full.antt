-- ===== src/ThreadPool/Full.antt =====
-- How full the queue of socket/pool/threadpool.h can get.
use unix_programming.Base.{
  ℕ, zero, suc, ◌+◌, ◌≤◌, ◌≡◌, refl, true, false, some, List, [], ◌∷◌, ◌++◌, arith, length,
  length-append, ltb,
}
use unix_programming.ThreadPool.{
  lock, Worker, entering, inside, posting, enqueue, caller_step, System, call, arrive, Steps, stay,
  then_step, started,
}

-- one call of append up to its post
append_in :
    (m : ℕ) (s : System) (r : ℕ)
    → s.pool.locked ≡ false
    → length s.pool.workqueue ≤ m
    → (t : System) × Steps m s t
      × (t.pool.locked ≡ false)
      × (length t.pool.workqueue ≡ length s.pool.workqueue + 1)
unfolding caller_step lock enqueue
append_in m s r free room =
    let p = s.pool in
    let q = record p { locked = true } in
    let arrived = record s { callers = entering r ∷ s.callers } in
    let locked_in : caller_step m (entering r) p ≡ some (inside r, q) = rw free refl in
    let has_room : ltb m (length p.workqueue) ≡ false = ground arith in
    let added = record p { locked = false; workqueue = p.workqueue ++ r ∷ [] } in
    let put : caller_step m (inside r) q ≡ some (posting, added) = rw has_room refl in
    (
      record s { pool = added; callers = posting ∷ s.callers },
      then_step (then_step (then_step stay (arrive r)) (call 0 refl locked_in)) (call 0 refl put),
      refl,
      length-append p.workqueue (r ∷ []),
    )

joined : (m : ℕ) (s t u : System) → Steps m s t → Steps m t u → Steps m s u
joined m s t _ run stay = run
joined m s t _ run (then_step {t = v} {u = u} before last) =
    then_step (joined m s t v run before) last

filled :
    (m : ℕ) (ws : List Worker) (k : ℕ)
    → k ≤ m + 1
    → (t : System) × Steps m (started ws) t
      × (t.pool.locked ≡ false)
      × (length t.pool.workqueue ≡ k)
filled m ws zero h = (started ws, stay, refl, refl)
filled m ws (suc k) h =
    let (t, run, free, size) = filled m ws k (omega arith) in
    let (u, more, free_too, longer) = append_in m t 1 free (omega arith) in
    (u, joined m (started ws) t u run more, free_too, omega arith)

-- The queue can come to hold one request more than max_requests.
pub overfull :
    (max_requests : ℕ) (ws : List Worker)
    → (s : System) × Steps max_requests (started ws) s
      × (length s.pool.workqueue ≡ max_requests + 1)
overfull m ws = let (t, run, free, size) = filled m ws (m + 1) (omega arith) in (t, run, size)
