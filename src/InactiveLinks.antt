-- ===== src/InactiveLinks.antt =====
-- The server that closes inactive connections, socket/timer/handling_inactive_link.cpp, over the
-- timer list of socket/timer/sigalrm_list_timer.h. What epoll_wait, accept, recv and time give is
-- in the events.
pub mod Entries
pub mod Serves
pub mod Data
mod Tests
use unix_programming.Base.{
  ℕ, ◌+◌, ◌*◌, Bool, true, false, Option, none, some, List, [], ◌∷◌, ◌++◌, map, ltb, ◌==◌,
  if◌then◌else◌, ◌>>=◌,
}
use unix_programming.TimerList.{
  Ptr, Node, Timers, load, store, add_timer, adjust_timer, del_timer, tick,
}

abbrev pub fd_limit : ℕ
fd_limit = 65535

abbrev pub timeslot : ℕ
timeslot = 5

-- client_data, without the address and the buffer
pub record User : Type 0 where
  pub sockfd : ℕ
  pub timer : Ptr

-- timer_lst, `users`, timeout, stop_server, and the descriptors that cb_func has closed
pub record Server : Type 0 where
  pub timers : Timers
  pub users : ℕ → User
  pub timeout : Bool
  pub stop : Bool
  pub closed : List ℕ

abbrev pub update : (ℕ → User) → ℕ → User → ℕ → User
update users i u j = if j == i then u else users j

-- cb_func(&users[i])
unfoldable pub close_user : ℕ → Server → Server
close_user i s = record s { closed = s.closed ++ (s.users i).sockfd ∷ [] }

-- a connection: what accept gives, the address that new gives, and the time
unfoldable pub on_accept : (fuel : ℕ) → (connfd fresh now : ℕ) → Server → Option Server
on_accept f connfd fresh now s =
    if ltb connfd fd_limit
    then (do
      let timer : Node = record {
        expire = now + 3 * timeslot;
        user_data = connfd;
        prev = none;
        next = none;
      }
      timers ← add_timer f (some fresh) (store s.timers fresh timer)
      some (record s {
        timers = timers;
        users = update s.users connfd (record { sockfd = connfd; timer = some fresh });
      }))
    else none

-- recv on a connection
pub data Received : Type 0 where
  some_bytes again broken closed_by_peer : Received

-- the connection is closed and its timer deleted
unfoldable pub drop_user : ℕ → Server → Option Server
unfolding close_user
drop_user fd s = do
  timers ← del_timer (s.users fd).timer s.timers
  some (record (close_user fd s) { timers = timers })

unfoldable pub put_off : (fuel : ℕ) → (fd now : ℕ) → Server → Option Server
put_off f fd now s = elim (s.users fd).timer [
  | none ↦ some s
  | some timer ↦ do
    t ← load s.timers timer
    timers ←
        adjust_timer f (some timer)
          (store s.timers timer (record t { expire = now + 3 * timeslot }))
    some (record s { timers = timers })
]

abbrev pub on_received : Received → (fuel : ℕ) → (fd now : ℕ) → Server → Option Server
on_received some_bytes f fd now s = put_off f fd now s
on_received again f fd now s = some s
on_received broken f fd now s = drop_user fd s
on_received closed_by_peer f fd now s = drop_user fd s

unfoldable pub on_data : (fuel : ℕ) → (fd : ℕ) → Received → (now : ℕ) → Server → Option Server
unfolding put_off drop_user
on_data f fd r now s = if ltb fd fd_limit then on_received r f fd now s else none

pub data Signal : Type 0 where
  sigalrm sigterm other_signal : Signal

unfoldable pub on_signals : List Signal → Server → Server
on_signals [] s = s
on_signals (sigalrm ∷ gs) s = on_signals gs (record s { timeout = true })
on_signals (sigterm ∷ gs) s = on_signals gs (record s { stop = true })
on_signals (other_signal ∷ gs) s = on_signals gs s

-- An event: a connection, with what accept gives (none for -1), the address that new gives and the
-- time; signals read from the pipe; data on a connection; an event without EPOLLIN.
pub data Event : Type 0 where
  accepted : Option ℕ → (fresh now : ℕ) → Event
  signals : List Signal → Event
  data_on : (fd : ℕ) → Received → (now : ℕ) → Event
  not_readable : Event

-- one event; none is an access outside of `users`, as at index -1, or a fault of the list
unfoldable pub on_event : (fuel : ℕ) → Event → Server → Option Server
unfolding on_accept on_data on_signals
on_event f (accepted none fresh now) s = none
on_event f (accepted (some connfd) fresh now) s = on_accept f connfd fresh now s
on_event f (signals gs) s = some (on_signals gs s)
on_event f (data_on fd r now) s = on_data f fd r now s
on_event f not_readable s = some s

unfoldable pub on_events : (fuel : ℕ) → List Event → Server → Option Server
unfolding on_event
on_events f [] s = some s
on_events f (e ∷ es) s = do s ← on_event f e s; on_events f es s

-- timer_handler: the callbacks of tick run cb_func
unfoldable pub timer_handler : (fuel : ℕ) → (now : ℕ) → Server → Option Server
timer_handler f now s = do
  (timers, called) ← tick f now s.timers.head s.timers
  some (record s { timers = timers; closed = s.closed ++ map (λ i. (s.users i).sockfd) called })

-- the code behind the loop over the events
unfoldable pub after_events : (fuel : ℕ) → (now : ℕ) → Server → Option Server
unfolding timer_handler
after_events f now s =
    if s.timeout
    then (do s ← timer_handler f now s; some (record s { timeout = false }))
    else some s

-- The while loop over the batches of events, each with the time at its end; where the list ends the
-- server waits.
unfoldable pub run : (fuel : ℕ) → List (List Event × ℕ) → Server → Option Server
unfolding on_events after_events
run f [] s = some s
run f ((es, now) ∷ rounds) s =
    let round : Option Server = (do
      s ← on_events f es s
      s ← after_events f now s
      run f rounds s) in
    if s.stop then some s else round
