-- ===== src/ThreadPool/Rest.antt =====
-- The thread pool of socket/pool/threadpool.h at rest: no thread can move.
use unix_programming.Base.{
  ℕ, suc, ◌≡◌, refl, false, none, some, List, [], ◌∷◌, arith, length, get_elem?, replicate,
}
use unix_programming.ThreadPool.{
  Pool, lock, wait, Worker, testing, waiting, locking, holding, handling, ended, worker_step,
  Caller, entering, inside, posting, returned, caller_step, System, Steps, started,
}
use unix_programming.ThreadPool.Wakeup.{
  total, holds_lock, is_inside, woken, to_post, reachable-IsPool,
}

total_none {ℓ} :
    {A : Type ℓ} (f : A → ℕ) (xs : List A)
    → ((i : ℕ) (x : A) → get_elem? xs i ≡ some x → f x ≡ 0)
    → total f xs ≡ 0
total_none f [] h = refl
total_none f (x ∷ xs) h =
    let here = h 0 x refl in let rest = total_none f xs (λ i. h (suc i)) in omega arith

-- a thread that cannot move does not hold the lock
worker_holds_none : (w : Worker) (p : Pool) → worker_step false w p ≡ none → holds_lock w ≡ 0
unfolding worker_step
worker_holds_none testing p e = refl
worker_holds_none waiting p e = refl
worker_holds_none locking p e = refl
worker_holds_none holding p e = cc
worker_holds_none (handling r) p e = refl
worker_holds_none ended p e = refl

caller_holds_none : (m : ℕ) (k : Caller) (p : Pool) → caller_step m k p ≡ none → is_inside k ≡ 0
unfolding caller_step
caller_holds_none m (entering r) p e = refl
caller_holds_none m (inside r) p e = cc
caller_holds_none m posting p e = refl
caller_holds_none m (returned b) p e = refl

-- with the lock free, it is not about to look at the queue, and no caller is about to post
worker_sleeps :
    (w : Worker) (p : Pool) → p.locked ≡ false → worker_step false w p ≡ none → woken w ≡ 0
unfolding worker_step lock
worker_sleeps testing p f e = refl
worker_sleeps waiting p f e = refl
worker_sleeps locking p f e = let moves = rw f at e in cc
worker_sleeps holding p f e = cc
worker_sleeps (handling r) p f e = refl
worker_sleeps ended p f e = refl

caller_posts_none : (m : ℕ) (k : Caller) (p : Pool) → caller_step m k p ≡ none → to_post k ≡ 0
unfolding caller_step
caller_posts_none m (entering r) p e = refl
caller_posts_none m (inside r) p e = refl
caller_posts_none m posting p e = cc
caller_posts_none m (returned b) p e = refl

waits_for_none : (p : Pool) → worker_step false waiting p ≡ none → p.queuestat ≡ 0
unfolding worker_step wait
waits_for_none p e = ground arith

-- In a reachable state in which no thread can move (and no wait is interrupted), nobody holds the
-- lock, and if a worker waits for the semaphore, the queue is empty.
pub at_rest :
    (max_requests threads : ℕ) (s : System)
    → Steps max_requests (started (replicate threads testing)) s
    → ((i : ℕ) (w : Worker) → get_elem? s.workers i ≡ some w → worker_step false w s.pool ≡ none)
    → ((i : ℕ) (k : Caller)
        → get_elem? s.callers i ≡ some k
        → caller_step max_requests k s.pool ≡ none)
    → (s.pool.locked ≡ false)
      × ((i : ℕ) → get_elem? s.workers i ≡ some waiting → length s.pool.workqueue ≡ 0)
at_rest m n s run no_worker no_caller =
    let ok = reachable-IsPool m n s run in
    let held =
      total_none holds_lock s.workers λ i w e. worker_holds_none w s.pool (no_worker i w e) in
    let held_too =
      total_none is_inside s.callers λ i k e. caller_holds_none m k s.pool (no_caller i k e) in
    let posts =
      total_none to_post s.callers λ i k e. caller_posts_none m k s.pool (no_caller i k e) in
    let exclusive = ok.exclusive in
    let free : s.pool.locked ≡ false = ground arith in
    let asleep =
      total_none woken s.workers λ i w e. worker_sleeps w s.pool free (no_worker i w e) in
    let awake = ok.awake in
    (free, λ i at. let empty = waits_for_none s.pool (no_worker i waiting at) in omega arith)
