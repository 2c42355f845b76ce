-- ===== src/ProcessPool.antt =====
-- The process pool, socket/pool/processpool.h: the event loops of the parent and of a child.
-- What epoll_wait, recv, waitpid and accept give is in the events; what the loop does to other
-- processes and to sockets is a list of actions.
pub mod Dispatch
pub mod Reap
pub mod Child
mod Tests
use unix_programming.Base.{
  ℕ, zero, suc, ◌+◌, ◌%◌, Bool, true, false, Option, none, some, List, [], ◌∷◌, ◌++◌, map, not,
  ◌&&◌, ◌||◌, ltb, ◌==◌, if◌then◌else◌, length, get_elem?,
}

-- process: m_pid (none for -1), and the parent's end of the pipe
pub record Process : Type 0 where
  pub pid : Option ℕ
  pub pipefd : ℕ

-- The parent's state: m_sub_process, whose length is m_process_number, sub_process_counter and
-- m_stop.
pub record Parent : Type 0 where
  pub sub_process : List Process
  pub counter : ℕ
  pub stop : Bool

pub data Action : Type 0 where
  send_conn : ℕ → Action
  close_pipe : ℕ → Action
  kill_term : ℕ → Action

abbrev pub is_some {ℓ} : {A : Type ℓ} → Option A → Bool
is_some none = false
is_some (some a) = true

-- m_sub_process[i].m_pid != -1
unfoldable pub is_live : List Process → ℕ → Bool
is_live [] i = false
is_live (p ∷ ps) zero = is_some p.pid
is_live (p ∷ ps) (suc i) = is_live ps i

-- The do-while loop that looks for a live child from `i` on; none is fuel that ran out.
unfoldable pub pick : List Process → (counter fuel i : ℕ) → Option ℕ
pick ps counter zero i = none
pick ps counter (suc f) i =
    let next = (i + 1) % length ps in
    let rest = pick ps counter f next in
    if is_live ps i then some i else if next == counter then some next else rest

-- What an event leaves: the state, the actions, and whether the loop over the events goes on.
pub record Step : Type 0 where
  pub state : Parent
  pub actions : List Action
  pub goes_on : Bool

-- a connection on m_listenfd
unfoldable pub dispatch : Parent → Option Step
unfolding pick is_live
dispatch s = elim (pick s.sub_process s.counter (length s.sub_process) s.counter) [
  | none ↦ none
  | some i ↦ some (
      if is_live s.sub_process i
      then record {
        state = record s { counter = (i + 1) % length s.sub_process };
        actions = send_conn i ∷ [];
        goes_on = true;
      }
      else record { state = record s { stop = true }; actions = []; goes_on = false })
]

abbrev pub has_pid : ℕ → Process → Bool
has_pid pid p = elim p.pid [ none ↦ false | some q ↦ q == pid ]

-- the loop over the children for one pid that waitpid gave
unfoldable pub reap_one : ℕ → List Process → List Process × List Action
reap_one pid [] = ([], [])
reap_one pid (p ∷ ps) =
    let (ps', acts) = reap_one pid ps in
    if has_pid pid p
    then (record p { pid = none } ∷ ps', close_pipe p.pipefd ∷ acts)
    else (p ∷ ps', acts)

-- the loop over waitpid: the pids that it gives before it gives no more
unfoldable pub reap : List ℕ → List Process → List Process × List Action
unfolding reap_one
reap [] ps = (ps, [])
reap (pid ∷ pids) ps =
    let (ps', acts) = reap_one pid ps in let (ps'', more) = reap pids ps' in (ps'', acts ++ more)

-- m_stop = true, then false if a child is left
unfoldable pub none_live : List Process → Bool
none_live [] = true
none_live (p ∷ ps) = not (is_some p.pid) && none_live ps

unfoldable pub kill_all : List Process → List Action
kill_all [] = []
kill_all (p ∷ ps) = elim p.pid [ none ↦ kill_all ps | some pid ↦ kill_term pid ∷ kill_all ps ]

-- a byte of the signal pipe; SIGCHLD comes with the pids that waitpid gives
pub data Signal : Type 0 where
  sigchld : List ℕ → Signal
  sigterm sigint other_signal : Signal

unfoldable pub parent_signal : Signal → Parent → Parent × List Action
unfolding reap none_live kill_all
parent_signal (sigchld pids) s =
    let (ps, acts) = reap pids s.sub_process in
    (record s { sub_process = ps; stop = none_live ps }, acts)
parent_signal sigterm s = (s, kill_all s.sub_process)
parent_signal sigint s = (s, kill_all s.sub_process)
parent_signal other_signal s = (s, [])

unfoldable pub parent_signals : List Signal → Parent → Parent × List Action
unfolding parent_signal
parent_signals [] s = (s, [])
parent_signals (g ∷ gs) s =
    let (s', acts) = parent_signal g s in
    let (s'', more) = parent_signals gs s' in (s'', acts ++ more)

-- An event of the parent's epoll: on the listening socket; signals read from the pipe (none where
-- recv gives 0 or -1); any other.
pub data ParentEvent : Type 0 where
  connection : ParentEvent
  signals : List Signal → ParentEvent
  other_event : ParentEvent

unfoldable pub parent_event : ParentEvent → Parent → Option Step
unfolding dispatch parent_signals
parent_event connection s = dispatch s
parent_event (signals gs) s =
    let (s', acts) = parent_signals gs s in
    some (record { state = s'; actions = acts; goes_on = true })
parent_event other_event s = some (record { state = s; actions = []; goes_on = true })

-- the `for` over the events of one epoll_wait
unfoldable pub parent_events : List ParentEvent → Parent → Option (Parent × List Action)
unfolding parent_event
parent_events [] s = some (s, [])
parent_events (e ∷ es) s = elim (parent_event e s) [
  | none ↦ none
  | some r ↦
      let rest : Option (Parent × List Action) = elim (parent_events es r.state) [
        | none ↦ none
        | some (s', acts) ↦ some (s', r.actions ++ acts)
      ] in
      if r.goes_on then rest else some (r.state, r.actions)
]

-- one epoll_wait: its events, none of them where a signal broke it off, or a failure
pub data Wait : Type 0 where
  events : List ParentEvent → Wait
  failure : Wait

-- The while loop of run_parent, over the results of its calls of epoll_wait. Where the list ends
-- the parent waits.
unfoldable pub run_parent : List Wait → Parent → Option (Parent × List Action)
unfolding parent_events
run_parent [] s = some (s, [])
run_parent (failure ∷ ws) s = some (s, [])
run_parent (events es ∷ ws) s =
    let round : Option (Parent × List Action) = elim (parent_events es s) [
      | none ↦ none
      | some (s', acts) ↦ elim (run_parent ws s') [
        | none ↦ none
        | some (s'', more) ↦ some (s'', acts ++ more)
      ]
    ] in
    if s.stop then some (s, []) else round
