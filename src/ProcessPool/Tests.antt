-- ===== src/ProcessPool/Tests.antt =====
-- A pool of three processes, and the theorems on socket/pool/processpool.h at it.
use unix_programming.Base.{
  ℕ, ◌≡◌, refl, ◌↔◌, true, false, none, some, [], ◌∷◌, map, arith, Gives, OnSome, ◌||◌,
}
use unix_programming.ProcessPool.{
  Process, Parent, is_live, dispatch, connection, sigchld, sigterm, other_event, signals,
  parent_signal, send_conn, close_pipe, kill_term, events, run_parent,
}
use unix_programming.ProcessPool.Child.{readable, on_signals, child_events}
use unix_programming.ProcessPool.Child.Stops.{asks_to_stop, child_events-stop}
use unix_programming.ProcessPool.Dispatch.{Dispatched, dispatch-Dispatched}
use unix_programming.ProcessPool.Reap.{struck, sigchld-struck}

abbrev process : ℕ → ℕ → Process
process pid pipefd = record { pid = some pid; pipefd = pipefd }

abbrev three : Parent
three = record {
  sub_process = process 101 4 ∷ process 102 6 ∷ process 103 8 ∷ [];
  counter = 2;
  stop = false;
}

-- the second has ended
abbrev two : Parent
two = record three {
  sub_process = process 101 4 ∷ record { pid = none; pipefd = 6 } ∷ process 103 8 ∷ [];
}

dispatch-Dispatched_example : Gives (Dispatched two) (dispatch two)
dispatch-Dispatched_example = dispatch-Dispatched two (omega arith)

sigchld-struck_example :
    let r = (parent_signal (sigchld (102 ∷ [])) three).0 in
    (r.sub_process ≡ map (struck (102 ∷ [])) three.sub_process)
    × (r.counter ≡ 2)
    × ((r.stop ≡ true) ↔ ((i : ℕ) → is_live r.sub_process i ≡ false))
sigchld-struck_example = sigchld-struck (102 ∷ []) three

-- a connection, the end of the second child, another connection, and SIGTERM
day :
    run_parent
      (events (connection ∷ signals (sigchld (102 ∷ []) ∷ []) ∷ connection ∷ [])
        ∷ events (other_event ∷ connection ∷ signals (sigterm ∷ []) ∷ [])
        ∷ [])
      (record three { counter = 1 })
    ≡ some (
      record two { counter = 1 },
      send_conn 1 ∷ close_pipe 6 ∷ send_conn 2 ∷ send_conn 0 ∷ kill_term 101 ∷ kill_term 103 ∷ [],
    )
unfolding run_parent
day = refl

child_events-stop_example :
    OnSome
      (λ r. r.0 ≡ (false || asks_to_stop (readable 7 ∷ on_signals (sigterm ∷ []) ∷ [])))
      (child_events (readable 7 ∷ on_signals (sigterm ∷ []) ∷ []) false)
child_events-stop_example = child_events-stop (readable 7 ∷ on_signals (sigterm ∷ []) ∷ []) false
