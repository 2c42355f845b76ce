-- ===== src/ProcessPool/Child.antt =====
-- The event loop of a child, run_child of socket/pool/processpool.h, over a handler type T whose
-- objects are known by their index in `users`.
pub mod Stops
use unix_programming.Base.{
  ℕ, suc, ◌+◌, ◌≤◌, ◌<◌, ◌≡◌, refl, ◌⊎◌, inl, inr, Bool, true, false, Option, none, some, List, [],
  ◌∷◌, ◌++◌, arith, All, ltb, if◌then◌else◌, OnSome,
}
use unix_programming.ProcessPool.{Signal, sigchld, sigterm, sigint, other_signal}

abbrev pub user_per_process : ℕ
user_per_process = 65536

-- what the loop does: addfd and init for a new connection, and process on a connection
pub data ChildAction : Type 0 where
  watch_and_init : ℕ → ChildAction
  process_user : ℕ → ChildAction

-- recv on the pipe to the parent
pub data PipeRecv : Type 0 where
  some_bytes again broken closed : PipeRecv

-- An event of the child's epoll with EPOLLIN: on the pipe, with what recv and then accept give
-- (none for -1); on the signal pipe (an empty list where recv gives 0 or -1); on a connection. Or
-- an event without EPOLLIN.
pub data ChildEvent : Type 0 where
  on_pipe : PipeRecv → Option ℕ → ChildEvent
  on_signals : List Signal → ChildEvent
  readable : ℕ → ChildEvent
  not_readable : ChildEvent

-- whether the handler goes on to accept
abbrev pub accepts : PipeRecv → Bool
accepts some_bytes = true
accepts again = true
accepts broken = false
accepts closed = false

unfoldable pub child_signals : List Signal → Bool → Bool
child_signals [] stop = stop
child_signals (sigterm ∷ gs) stop = child_signals gs true
child_signals (sigint ∷ gs) stop = child_signals gs true
child_signals (sigchld pids ∷ gs) stop = child_signals gs stop
child_signals (other_signal ∷ gs) stop = child_signals gs stop

-- `users` has USER_PER_PROCESS objects; none is an access outside of it
abbrev pub with_user : ℕ → ChildAction → Option (List ChildAction)
with_user fd a = if ltb fd user_per_process then some (a ∷ []) else none

-- one event: m_stop and the actions
unfoldable pub child_event : ChildEvent → Bool → Option (Bool × List ChildAction)
unfolding child_signals
child_event (on_pipe r none) stop = some (stop, [])
child_event (on_pipe r (some connfd)) stop =
    if accepts r
    then (elim (with_user connfd (watch_and_init connfd)) [
      | none ↦ none
      | some acts ↦ some (stop, acts)
    ])
    else some (stop, [])
child_event (on_signals gs) stop = some (child_signals gs stop, [])
child_event (readable fd) stop = elim (with_user fd (process_user fd)) [
  | none ↦ none
  | some acts ↦ some (stop, acts)
]
child_event not_readable stop = some (stop, [])

unfoldable pub child_events : List ChildEvent → Bool → Option (Bool × List ChildAction)
unfolding child_event
child_events [] stop = some (stop, [])
child_events (e ∷ es) stop = elim (child_event e stop) [
  | none ↦ none
  | some (stop', acts) ↦ elim (child_events es stop') [
    | none ↦ none
    | some (stop'', more) ↦ some (stop'', acts ++ more)
  ]
]

-- one epoll_wait: its events, or a failure
pub data ChildWait : Type 0 where
  batch : List ChildEvent → ChildWait
  epoll_failure : ChildWait

-- The while loop. Where the list ends the child waits.
unfoldable pub run_child : List ChildWait → Bool → Option (Bool × List ChildAction)
unfolding child_events
run_child [] stop = some (stop, [])
run_child (epoll_failure ∷ ws) stop = some (stop, [])
run_child (batch es ∷ ws) stop =
    let round : Option (Bool × List ChildAction) = elim (child_events es stop) [
      | none ↦ none
      | some (stop', acts) ↦ elim (run_child ws stop') [
        | none ↦ none
        | some (stop'', more) ↦ some (stop'', acts ++ more)
      ]
    ] in
    if stop then some (stop, []) else round
