-- ===== src/ThreadPool/Tests.antt =====
-- A pool of two threads, and the theorems on socket/pool/threadpool.h at it.
use unix_programming.Base.{
  ℕ, zero, suc, ◌+◌, ◌≡◌, refl, true, false, none, some, [], ◌∷◌, length, replicate, get_elem?,
}
use unix_programming.ThreadPool.{
  lock, wait, Worker, testing, waiting, handling, take_request, worker_step, returned, enqueue,
  caller_step, System, Steps, stay, then_step, work, call, arrive, started,
}
use unix_programming.ThreadPool.Wakeup.{IsPool, reachable-IsPool}
use unix_programming.ThreadPool.Full.{overfull}
use unix_programming.ThreadPool.Rest.{at_rest}

-- request 7 comes in, and the first worker has taken it
abbrev at_work : System
at_work = record {
  pool = record { workqueue = []; locked = false; queuestat = 0; stop = false };
  workers = handling 7 ∷ testing ∷ [];
  callers = returned true ∷ [];
}

day : Steps 3 (started (replicate 2 testing)) at_work
unfolding worker_step caller_step lock wait take_request enqueue
day =
    then_step
      (then_step
        (then_step
          (then_step
            (then_step
              (then_step (then_step (then_step stay (work false 0 refl refl)) (arrive 7))
                (call 0 refl refl))
              (call 0 refl refl))
            (call 0 refl refl))
          (work false 0 refl refl))
        (work false 0 refl refl))
      (work false 0 refl refl)

reachable-IsPool_example : IsPool 3 at_work
reachable-IsPool_example = reachable-IsPool 3 2 at_work day

overfull_example :
    (s : System) × Steps 3 (started (replicate 2 testing)) s × (length s.pool.workqueue ≡ 3 + 1)
overfull_example = overfull 3 (replicate 2 testing)

-- both workers wait, and append has not been called
abbrev asleep : System
asleep = record (started (replicate 2 testing)) { workers = waiting ∷ waiting ∷ [] }

falls_asleep : Steps 3 (started (replicate 2 testing)) asleep
unfolding worker_step
falls_asleep = then_step (then_step stay (work false 0 refl refl)) (work false 1 refl refl)

asleep_workers :
    (i : ℕ) (w : Worker)
    → get_elem? asleep.workers i ≡ some w
    → worker_step false w asleep.pool ≡ none
unfolding worker_step wait
asleep_workers zero w e = let waits : w ≡ waiting = cc in rw waits refl
asleep_workers (suc zero) w e = let waits : w ≡ waiting = cc in rw waits refl
asleep_workers (suc (suc i)) w e = cc

at_rest_example :
    (asleep.pool.locked ≡ false)
    × ((i : ℕ) → get_elem? asleep.workers i ≡ some waiting → length asleep.pool.workqueue ≡ 0)
at_rest_example = at_rest 3 2 asleep falls_asleep asleep_workers λ i k e. cc
