-- ===== src/ThreadPool/Wakeup.antt =====
-- What holds of socket/pool/threadpool.h in every order of its threads' steps.
use unix_programming.Base.{
  ℕ, zero, suc, ◌+◌, ◌-◌, ◌≤◌, ◌≡◌, refl, inl, inr, Bool, Bool-cases, true, false, some, List, [],
  ◌∷◌, ◌++◌, arith, length, length-append, get_elem?, set, OnSome, OnSome-at, ltb, ◌==◌, replicate,
}
use unix_programming.ThreadPool.{
  Pool, lock, wait, Worker, testing, waiting, locking, holding, handling, ended, take_request,
  worker_step, Caller, entering, inside, posting, returned, enqueue, caller_step, System, Step,
  work, call, arrive, Steps, stay, then_step, started,
}

-- the sum of a count over the threads
abbrev pub total {ℓ} : {A : Type ℓ} → (A → ℕ) → List A → ℕ
total f [] = 0
total f (x ∷ xs) = f x + total f xs

abbrev pub as_ℕ : Bool → ℕ
as_ℕ true = 1
as_ℕ false = 0

-- a worker that has come back from wait and not yet looked at the queue
abbrev pub woken : Worker → ℕ
woken locking = 1
woken holding = 1
woken _ = 0

abbrev pub holds_lock : Worker → ℕ
holds_lock holding = 1
holds_lock _ = 0

abbrev pub is_inside : Caller → ℕ
is_inside (inside r) = 1
is_inside _ = 0

-- a caller that has put its request on the queue and not yet raised the semaphore
abbrev pub to_post : Caller → ℕ
to_post posting = 1
to_post _ = 0

-- one thread moves, the others stay
total-set {ℓ} :
    {A : Type ℓ} (f : A → ℕ) (xs : List A) (i : ℕ) (x y : A)
    → get_elem? xs i ≡ some x
    → total f (set xs i y) + f x ≡ total f xs + f y
total-set f [] i x y e = cc
total-set f (z ∷ xs) zero x y e = let same : f z ≡ f x = cc in omega arith
total-set f (z ∷ xs) (suc i) x y e = let rest = total-set f xs i x y e in omega arith

-- One holder of the lock at most, no more requests than allowed, and for each request on the
-- queue a unit of the semaphore, a worker on its way, or a caller about to post.
pub record IsPool (max_requests : ℕ) (s : System) : Type 0 where
  pub exclusive : total holds_lock s.workers + total is_inside s.callers ≡ as_ℕ s.pool.locked
  pub bounded : length s.pool.workqueue ≤ max_requests + 1
  pub awake :
      length s.pool.workqueue ≤ s.pool.queuestat + total woken s.workers + total to_post s.callers

-- what a step of a worker changes; `rest` is what the other threads count
abbrev WorkerMoves : Worker → Pool → Worker × Pool → Type 0
WorkerMoves w p r =
    (holds_lock r.0 + as_ℕ p.locked ≡ holds_lock w + as_ℕ r.1.locked)
    × (length r.1.workqueue ≤ length p.workqueue)
    × ((rest : ℕ)
        → length p.workqueue ≤ p.queuestat + woken w + rest
        → length r.1.workqueue ≤ r.1.queuestat + woken r.0 + rest)

abbrev CallerMoves : ℕ → Caller → Pool → Caller × Pool → Type 0
CallerMoves m k p r =
    (is_inside r.0 + as_ℕ p.locked ≡ is_inside k + as_ℕ r.1.locked)
    × (length p.workqueue ≤ m + 1 → length r.1.workqueue ≤ m + 1)
    × ((rest : ℕ)
        → length p.workqueue ≤ p.queuestat + to_post k + rest
        → length r.1.workqueue ≤ r.1.queuestat + to_post r.0 + rest)

abbrev pool : List ℕ → Bool → ℕ → Bool → Pool
pool q l n b = record { workqueue = q; locked = l; queuestat = n; stop = b }

take_request-moves :
    (q : List ℕ) (l : Bool) (n : ℕ) (b : Bool)
    → 1 ≤ as_ℕ l
    → WorkerMoves holding (pool q l n b) (take_request (pool q l n b))
unfolding take_request
take_request-moves q false n b h = absurd (omega arith)
take_request-moves [] true n b h = (refl, omega arith, λ rest k. omega arith)
take_request-moves (r ∷ rs) true n b h = elim (Bool-cases (r == 0)) [
  | inl null ↦ rw null (refl, omega arith, λ rest k. omega arith)
  | inr ok ↦ rw ok (refl, omega arith, λ rest k. omega arith)
]

worker_step-moves :
    (b : Bool) (w : Worker) (q : List ℕ) (l : Bool) (n : ℕ) (e : Bool)
    → holds_lock w ≤ as_ℕ l
    → OnSome (WorkerMoves w (pool q l n e)) (worker_step b w (pool q l n e))
unfolding worker_step lock wait
worker_step-moves b testing q l n true h = (refl, omega arith, λ rest k. omega arith)
worker_step-moves b testing q l n false h = (refl, omega arith, λ rest k. omega arith)
worker_step-moves true waiting q l n e h = (refl, omega arith, λ rest k. omega arith)
worker_step-moves false waiting q l zero e h = tt
worker_step-moves false waiting q l (suc n) e h = (refl, omega arith, λ rest k. omega arith)
worker_step-moves b locking q true n e h = tt
worker_step-moves b locking q false n e h = (refl, omega arith, λ rest k. omega arith)
worker_step-moves b holding q l n e h = take_request-moves q l n e h
worker_step-moves b (handling r) q l n e h = (refl, omega arith, λ rest k. omega arith)
worker_step-moves b ended q l n e h = tt

enqueue-moves :
    (m r : ℕ) (q : List ℕ) (l : Bool) (n : ℕ) (b : Bool)
    → 1 ≤ as_ℕ l
    → CallerMoves m (inside r) (pool q l n b) (enqueue m r (pool q l n b))
unfolding enqueue
enqueue-moves m r q false n b h = absurd (omega arith)
enqueue-moves m r q true n b h =
    let longer : length (q ++ r ∷ []) ≡ length q + 1 = length-append q (r ∷ []) in
    elim (Bool-cases (ltb m (length q))) [
      | inl full ↦ rw full (refl, λ k. k, λ rest k. k)
      | inr room ↦ rw room (refl, λ k. ground arith, λ rest k. omega arith)
    ]

caller_step-moves :
    (m : ℕ) (k : Caller) (q : List ℕ) (l : Bool) (n : ℕ) (e : Bool)
    → is_inside k ≤ as_ℕ l
    → OnSome (CallerMoves m k (pool q l n e)) (caller_step m k (pool q l n e))
unfolding caller_step lock
caller_step-moves m (entering r) q true n e h = tt
caller_step-moves m (entering r) q false n e h = (refl, λ k. k, λ rest k. k)
caller_step-moves m (inside r) q l n e h = enqueue-moves m r q l n e h
caller_step-moves m posting q l n e h = (refl, λ k. k, λ rest k. omega arith)
caller_step-moves m (returned b) q l n e h = tt

member {ℓ} :
    {A : Type ℓ} (f : A → ℕ) (xs : List A) (i : ℕ) (x : A)
    → get_elem? xs i ≡ some x
    → f x ≤ total f xs
member f [] i x e = cc
member f (z ∷ xs) zero x e = let same : f z ≡ f x = cc in omega arith
member f (z ∷ xs) (suc i) x e = let rest = member f xs i x e in omega arith

-- the steps of one thread keep what holds of the pool
Step-IsPool : (m : ℕ) (s t : System) → Step m s t → IsPool m s → IsPool m t
Step-IsPool m s _ (work {w = w} {w' = w'} {p = p} b i at run) ok =
    let q = s.pool in
    let mine : holds_lock w ≤ as_ℕ q.locked =
      (let m1 = member holds_lock s.workers i w at in let e = ok.exclusive in omega arith) in
    let moves =
      OnSome-at (WorkerMoves w q) (worker_step b w q)
        (worker_step-moves b w q.workqueue q.locked q.queuestat q.stop mine) run in
    let held = total-set holds_lock s.workers i w w' at in
    let up = total-set woken s.workers i w w' at in
    let others : (rest : ℕ) × (rest + woken w ≡ total woken s.workers + total to_post s.callers) = (
      total woken s.workers + total to_post s.callers - woken w,
      (let m2 = member woken s.workers i w at in omega arith),
    ) in
    let a = ok.awake in
    let e = ok.exclusive in
    let bound = ok.bounded in
    let (lock_moves, shrinks, wakes) = moves in
    let now = wakes others.0 (let o = others.1 in omega arith) in
    record {
      exclusive = omega arith;
      bounded = omega arith;
      awake = (let o = others.1 in omega arith);
    }
Step-IsPool m s _ (call {k = k} {k' = k'} {p = p} i at run) ok =
    let q = s.pool in
    let mine : is_inside k ≤ as_ℕ q.locked =
      (let m1 = member is_inside s.callers i k at in let e = ok.exclusive in omega arith) in
    let moves =
      OnSome-at (CallerMoves m k q) (caller_step m k q)
        (caller_step-moves m k q.workqueue q.locked q.queuestat q.stop mine) run in
    let held = total-set is_inside s.callers i k k' at in
    let up = total-set to_post s.callers i k k' at in
    let others : (rest : ℕ) × (rest + to_post k ≡ total woken s.workers + total to_post s.callers) =
      (
        total woken s.workers + total to_post s.callers - to_post k,
        (let m2 = member to_post s.callers i k at in omega arith),
      ) in
    let a = ok.awake in
    let e = ok.exclusive in
    let (lock_moves, bound, wakes) = moves in
    let now = wakes others.0 (let o = others.1 in omega arith) in
    record {
      exclusive = omega arith;
      bounded = bound ok.bounded;
      awake = (let o = others.1 in omega arith);
    }
Step-IsPool m s _ (arrive r) ok =
    let e = ok.exclusive in
    let a = ok.awake in
    record { exclusive = omega arith; bounded = ok.bounded; awake = omega arith }

Steps-IsPool : (m : ℕ) (s t : System) → Steps m s t → IsPool m s → IsPool m t
Steps-IsPool m s _ stay ok = ok
Steps-IsPool m s _ (then_step {t = t} {u = u} before last) ok =
    Step-IsPool m t u last (Steps-IsPool m s t before ok)

started-total : (f : Worker → ℕ) (n : ℕ) → f testing ≡ 0 → total f (replicate n testing) ≡ 0
started-total f zero e = refl
started-total f (suc n) e = let rest = started-total f n e in omega arith

-- In whatever order the threads move, and however often wait is interrupted: at most one thread is
-- between lock and unlock, and then the lock is held; the queue holds at most max_requests + 1
-- requests; and no request is forgotten, that is, to each request on the queue belongs a unit of the
-- semaphore, a worker that has come back from wait and is about to look, or a caller about to post.
pub reachable-IsPool :
    (max_requests threads : ℕ) (s : System)
    → Steps max_requests (started (replicate threads testing)) s
    → IsPool max_requests s
reachable-IsPool m n s run = Steps-IsPool m (started (replicate n testing)) s run (
    let held = started-total holds_lock n refl in
    record { exclusive = omega arith; bounded = omega arith; awake = omega arith })
