-- ===== src/ProcessPool/Child/Stops.antt =====
-- When a child of socket/pool/processpool.h stops, and which connections it serves.
use unix_programming.Base.{◌≡◌, Bool, true, false, none, some, List, [], ◌∷◌, arith, ◌||◌, OnSome}
use unix_programming.ProcessPool.{Signal, sigchld, sigterm, sigint, other_signal}
use unix_programming.ProcessPool.Child.{
  ChildEvent, on_pipe, on_signals, readable, not_readable, child_signals, child_event, child_events,
}

-- SIGTERM or SIGINT
abbrev pub ends_child : Signal → Bool
ends_child sigterm = true
ends_child sigint = true
ends_child (sigchld pids) = false
ends_child other_signal = false

abbrev pub any_ends : List Signal → Bool
any_ends [] = false
any_ends (g ∷ gs) = ends_child g || any_ends gs

abbrev pub asks_to_stop : List ChildEvent → Bool
asks_to_stop [] = false
asks_to_stop (on_signals gs ∷ es) = any_ends gs || asks_to_stop es
asks_to_stop (on_pipe r fd ∷ es) = asks_to_stop es
asks_to_stop (readable fd ∷ es) = asks_to_stop es
asks_to_stop (not_readable ∷ es) = asks_to_stop es

signals_stop : (gs : List Signal) (stop : Bool) → child_signals gs stop ≡ (stop || any_ends gs)
unfolding child_signals
signals_stop [] stop = ground arith
signals_stop (sigterm ∷ gs) stop = ground (arith, signals_stop gs true)
signals_stop (sigint ∷ gs) stop = ground (arith, signals_stop gs true)
signals_stop (sigchld pids ∷ gs) stop = signals_stop gs stop
signals_stop (other_signal ∷ gs) stop = signals_stop gs stop

-- A batch of events sets m_stop exactly if one of its signals is SIGTERM or SIGINT, and never
-- clears it.
pub child_events-stop :
    (es : List ChildEvent) (stop : Bool)
    → OnSome (λ r. r.0 ≡ (stop || asks_to_stop es)) (child_events es stop)
unfolding child_events child_event
child_events-stop [] stop = ground arith
child_events-stop (on_signals gs ∷ es) stop =
    ground (arith, signals_stop gs stop, child_events-stop es (child_signals gs stop))
child_events-stop (on_pipe r none ∷ es) stop = ground (arith, child_events-stop es stop)
child_events-stop (on_pipe r (some fd) ∷ es) stop = ground (arith, child_events-stop es stop)
child_events-stop (readable fd ∷ es) stop = ground (arith, child_events-stop es stop)
child_events-stop (not_readable ∷ es) stop = ground (arith, child_events-stop es stop)
