-- ===== src/SharedChat.antt =====
-- The chat server over shared memory, socket/ipc/shm.c: the main process with its table of
-- connections. What epoll_wait, accept, fork, recv and waitpid give is in the events; what the
-- process does to sockets, pipes and other processes is a list of actions.
pub mod Table
pub mod Reap
pub mod Events
pub mod Slots
pub mod Child
mod Tests
use unix_programming.Base.{
  ℕ, zero, suc, ◌+◌, ◌-◌, Bool, true, false, Option, none, some, List, [], ◌∷◌, ◌++◌, ◌&&◌, ltb,
  ◌==◌, if◌then◌else◌, get_elem?, set, ◌>>=◌,
}

abbrev pub user_limit : ℕ
user_limit = 5

abbrev pub process_limit : ℕ
process_limit = 65536

-- client_data, with the parent's end of the pipe and the child's. `slot` is the idx that the child was forked with,
-- the buffer of the shared memory that it reads into.
pub record Client : Type 0 where
  pub connfd : ℕ
  pub pid : ℕ
  pub pipefd : ℕ
  pub child_end : ℕ
  pub slot : ℕ

-- users, an array of USER_LIMIT + 1; user_count; sub_process, where none is -1; stop_server and
-- terminate
pub record Chat : Type 0 where
  pub users : List Client
  pub user_count : ℕ
  pub sub_process : ℕ → Option ℕ
  pub stop : Bool
  pub terminate : Bool

pub data Action : Type 0 where
  send_too_many : ℕ → Action
  close_fd : ℕ → Action
  watch unwatch : ℕ → Action
  forked : (idx : ℕ) → Action
  kill_term : ℕ → Action
  send_child : (pipefd child : ℕ) → Action

abbrev pub Acted : Type 0
Acted = Option (Chat × List Action)

abbrev pub point : (ℕ → Option ℕ) → ℕ → Option ℕ → ℕ → Option ℕ
point f p v q = if q == p then v else f q

-- how fork ends in the main process
pub data Fork : Type 0 where
  no_child : Fork
  child : ℕ → Fork

-- a connection, with the two ends of its pipe; none is an access outside of an array
unfoldable pub on_accept : (connfd pipefd child_end : ℕ) → Fork → Chat → Acted
on_accept connfd pipefd child_end fork s =
    if ltb s.user_count user_limit
    then (elim fork [
      | no_child ↦ do
        old ← get_elem? s.users s.user_count
        some (
          record s {
            users =
                set s.users s.user_count
                  (record old { connfd = connfd; pipefd = pipefd; child_end = child_end });
          },
          close_fd connfd ∷ [],
        )
      | child pid ↦
          if ltb pid process_limit
          then some (
            record s {
              users = set s.users s.user_count (record {
                connfd = connfd;
                pid = pid;
                pipefd = pipefd;
                child_end = child_end;
                slot = s.user_count;
              });
              sub_process = point s.sub_process pid (some s.user_count);
              user_count = s.user_count + 1;
            },
            forked s.user_count ∷ close_fd connfd ∷ close_fd child_end ∷ watch pipefd ∷ [],
          )
          else none
    ])
    else some (s, send_too_many connfd ∷ close_fd connfd ∷ [])

-- the connection at `d` is taken out: the last one takes its place
unfoldable pub remove_user : ℕ → Chat → Acted
remove_user d s = do
  gone ← get_elem? s.users d
  count ← elim s.user_count [ zero ↦ none | suc n ↦ some n ]
  last ← get_elem? s.users count
  if ltb last.pid process_limit
      then some (
        record s {
          users = set s.users d last;
          user_count = count;
          sub_process = point s.sub_process last.pid (some d);
        },
        unwatch gone.pipefd ∷ close_fd gone.pipefd ∷ [],
      )
      else none

-- one pid that waitpid gives
unfoldable pub reap_one : ℕ → Chat → Acted
unfolding remove_user
reap_one pid s =
    if ltb pid process_limit
    then (let cleared = record s { sub_process = point s.sub_process pid none } in
        elim (s.sub_process pid) [
          | none ↦ some (cleared, [])
          | some d ↦ if ltb user_limit d then some (cleared, []) else remove_user d cleared
        ])
    else none

unfoldable pub reap : List ℕ → Chat → Acted
unfolding reap_one
reap [] s = some (s, [])
reap (pid ∷ pids) s = do (s, acts) ← reap_one pid s; (s, more) ← reap pids s; some (s, acts ++ more)

-- the loop over the first `n` entries of `users`, from the front
unfoldable pub kill_users : List Client → (n : ℕ) → List Action
kill_users us zero = []
kill_users [] (suc n) = []
kill_users (u ∷ us) (suc n) = kill_term u.pid ∷ kill_users us n

-- a signal; SIGCHLD comes with the pids that waitpid gives
pub data Signal : Type 0 where
  sigchld : List ℕ → Signal
  sigterm sigint other_signal : Signal

unfoldable pub end_all : Chat → Chat × List Action
unfolding kill_users
end_all s =
    if s.user_count == 0
    then (record s { stop = true }, [])
    else (record s { terminate = true }, kill_users s.users s.user_count)

unfoldable pub on_signal : Signal → Chat → Acted
unfolding reap end_all
on_signal (sigchld pids) s = do
  (s, acts) ← reap pids s
  some (if s.terminate && (s.user_count == 0) then record s { stop = true } else s, acts)
on_signal sigterm s = some (end_all s)
on_signal sigint s = some (end_all s)
on_signal other_signal s = some (s, [])

unfoldable pub on_signals : List Signal → Chat → Acted
unfolding on_signal
on_signals [] s = some (s, [])
on_signals (g ∷ gs) s = do
  (s, acts) ← on_signal g s
  (s, more) ← on_signals gs s
  some (s, acts ++ more)

-- the number of a connection with data is passed on to the other children
unfoldable pub relay : (sockfd child : ℕ) → List Client → (n : ℕ) → List Action
relay sockfd c us zero = []
relay sockfd c [] (suc n) = []
relay sockfd c (u ∷ us) (suc n) =
    let rest = relay sockfd c us n in
    if u.pipefd == sockfd then rest else send_child u.pipefd c ∷ rest

-- An event: a connection, with what accept gives (none for -1), the pipe and fork; signals (an
-- empty list where recv gives 0 or -1); a number from a child's pipe (none where recv gives 0 or
-- -1); an event without EPOLLIN.
pub data Event : Type 0 where
  accepted : Option ℕ → (pipefd child_end : ℕ) → Fork → Event
  signals : List Signal → Event
  from_child : (sockfd : ℕ) → Option ℕ → Event
  not_readable : Event

unfoldable pub on_event : Event → Chat → Acted
unfolding on_accept on_signals relay
on_event (accepted none pipefd child_end fork) s = some (s, [])
on_event (accepted (some connfd) pipefd child_end fork) s = on_accept connfd pipefd child_end fork s
on_event (signals gs) s = on_signals gs s
on_event (from_child sockfd none) s = some (s, [])
on_event (from_child sockfd (some c)) s = some (s, relay sockfd c s.users s.user_count)
on_event not_readable s = some (s, [])

unfoldable pub on_events : List Event → Chat → Acted
unfolding on_event
on_events [] s = some (s, [])
on_events (e ∷ es) s = do
  (s, acts) ← on_event e s
  (s, more) ← on_events es s
  some (s, acts ++ more)

-- The while loop over the batches of events. Where the list ends the process waits, or epoll_wait
-- has failed.
unfoldable pub run : List (List Event) → Chat → Acted
unfolding on_events
run [] s = some (s, [])
run (es ∷ rounds) s =
    let round : Acted = (do
      (s, acts) ← on_events es s
      (s, more) ← run rounds s
      some (s, acts ++ more)) in
    if s.stop then some (s, []) else round
