-- ===== src/ThreadPool.antt =====
-- The thread pool, socket/pool/threadpool.h: append and the loop of a worker, with the semaphore
-- and the lock of socket/thread/locker.h. A thread's position in its code is a state of its own,
-- and threads take turns between the accesses to what they share.
pub mod Wakeup
pub mod Full
pub mod Rest
mod Tests
use unix_programming.Base.{
  ℕ, zero, suc, ◌+◌, ◌≡◌, Bool, true, false, Option, none, some, List, [], ◌∷◌, ◌++◌, ltb, ◌==◌,
  if◌then◌else◌, length, get_elem?, set,
}

-- What the threads share: m_workqueue, a list of pointers to requests (0 is null), whether
-- m_queuelocker is held, the value of m_queuestat, and m_stop.
pub record Pool : Type 0 where
  pub workqueue : List ℕ
  pub locked : Bool
  pub queuestat : ℕ
  pub stop : Bool

-- locker::lock and locker::unlock; none where the thread has to wait
unfoldable pub lock : Pool → Option Pool
lock p = if p.locked then none else some (record p { locked = true })

abbrev pub unlock : Pool → Pool
unlock p = record p { locked = false }

-- sem::wait, whose result the callers do not read: it may be interrupted by a signal
unfoldable pub wait : (interrupted : Bool) → Pool → Option Pool
wait true p = some p
wait false p = elim p.queuestat [ zero ↦ none | suc n ↦ some (record p { queuestat = n }) ]

abbrev pub post : Pool → Pool
post p = record p { queuestat = p.queuestat + 1 }

-- where a worker is in run(): in front of the test of m_stop, of wait, of lock; behind lock;
-- in request->process(); at the end
pub data Worker : Type 0 where
  testing waiting locking holding ended : Worker
  handling : ℕ → Worker

-- the part of run() between lock and process()
unfoldable pub take_request : Pool → Worker × Pool
take_request p = elim p.workqueue [
  | [] ↦ (testing, unlock p)
  | r ∷ rs ↦
      let p = unlock (record p { workqueue = rs }) in
      if r == 0 then (testing, p) else (handling r, p)
]

unfoldable pub worker_step : (interrupted : Bool) → Worker → Pool → Option (Worker × Pool)
unfolding take_request lock wait
worker_step b testing p = some (if p.stop then ended else waiting, p)
worker_step b waiting p = elim (wait b p) [ none ↦ none | some q ↦ some (locking, q) ]
worker_step b locking p = elim (lock p) [ none ↦ none | some q ↦ some (holding, q) ]
worker_step b holding p = some (take_request p)
worker_step b (handling r) p = some (testing, p)
worker_step b ended p = none

-- where a caller is in append(): in front of lock, behind lock, in front of post, at its return
pub data Caller : Type 0 where
  entering inside : ℕ → Caller
  posting : Caller
  returned : Bool → Caller

-- the part of append() that holds the lock
unfoldable pub enqueue : (max_requests : ℕ) → ℕ → Pool → Caller × Pool
enqueue max_requests r p =
    if ltb max_requests (length p.workqueue)
    then (returned false, unlock p)
    else (posting, unlock (record p { workqueue = p.workqueue ++ r ∷ [] }))

unfoldable pub caller_step : (max_requests : ℕ) → Caller → Pool → Option (Caller × Pool)
unfolding enqueue lock
caller_step m (entering r) p = elim (lock p) [ none ↦ none | some q ↦ some (inside r, q) ]
caller_step m (inside r) p = some (enqueue m r p)
caller_step m posting p = some (returned true, post p)
caller_step m (returned b) p = none

-- the pool with its threads
pub record System : Type 0 where
  pub pool : Pool
  pub workers : List Worker
  pub callers : List Caller

-- one thread moves, or append is called
pub data Step (max_requests : ℕ) : System → System → Type 0 where
  work :
      {s : System} {w w' : Worker} {p : Pool}
      → (b : Bool) → (i : ℕ) → get_elem? s.workers i ≡ some w
      → worker_step b w s.pool ≡ some (w', p)
      → Step max_requests s (record s { pool = p; workers = set s.workers i w' })
  call :
      {s : System} {k k' : Caller} {p : Pool}
      → (i : ℕ) → get_elem? s.callers i ≡ some k
      → caller_step max_requests k s.pool ≡ some (k', p)
      → Step max_requests s (record s { pool = p; callers = set s.callers i k' })
  arrive :
      {s : System} → (r : ℕ) → Step max_requests s (record s { callers = entering r ∷ s.callers })

pub data Steps (max_requests : ℕ) : System → System → Type 0 where
  stay : {s : System} → Steps max_requests s s
  then_step :
      {s t u : System} → Steps max_requests s t → Step max_requests t u → Steps max_requests s u

-- the constructor's pool: its threads are about to start
abbrev pub started : (workers : List Worker) → System
started workers = record {
  pool = record { workqueue = []; locked = false; queuestat = 0; stop = false };
  workers = workers;
  callers = [];
}
