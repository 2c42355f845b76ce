-- ===== src/SharedChat/Child.antt =====
-- The event loop of a child, run_child of socket/ipc/shm.c. The shared memory is the list of its
-- bytes; the other processes write to it too, so an event comes with the memory as it is found.
pub mod Relayed
use unix_programming.Base.{
  ℕ, ◌+◌, ◌*◌, Bool, true, false, Option, none, some, List, [], ◌∷◌, ◌++◌, leb, ◌==◌, if◌then◌else◌,
  length, take, drop, replicate, ◌>>=◌,
}

abbrev pub buffer_size : ℕ
buffer_size = 1024

-- how one recv on the client's socket ends: bytes; 0, the client has closed; -1 with EAGAIN;
-- another -1
pub data ConnRecv : Type 0 where
  bytes : List ℕ → ConnRecv
  closed again broken : ConnRecv

-- how one recv on the pipe ends: the number of a connection, read whole; the rest as above
pub data PipeRecv : Type 0 where
  client : ℕ → PipeRecv
  closed again broken : PipeRecv

-- an event with EPOLLIN on the client's socket or on the pipe, or any other event
pub data ChildEvent : Type 0 where
  on_conn : ConnRecv → ChildEvent
  on_pipe : PipeRecv → ChildEvent
  other_event : ChildEvent

-- send(pipefd, &idx, ...) to the main process; send(connfd, ...) to the client
pub data ChildAction : Type 0 where
  notify : ℕ → ChildAction
  deliver : List ℕ → ChildAction

-- stop_child, the memory, and what was sent
pub record ChildStep : Type 0 where
  pub stop : Bool
  pub mem : List ℕ
  pub sent : List ChildAction

-- the bytes that memset leaves
unfoldable pub zeros : ℕ → List ℕ
zeros n = replicate n 0

-- a write of `bs` at an address; none where it passes the end of the memory
unfoldable pub write_mem : (at : ℕ) (bs mem : List ℕ) → Option (List ℕ)
write_mem at bs mem =
    if leb (at + length bs) (length mem)
    then some (take at mem ++ (bs ++ drop (at + length bs) mem))
    else none

-- a read of `n` bytes
unfoldable pub read_mem : (at n : ℕ) (mem : List ℕ) → Option (List ℕ)
read_mem at n mem = if leb (at + n) (length mem) then some (take n (drop at mem)) else none

-- The memset and the recv into the child's own buffer; recv is given room for one byte less than
-- the buffer.
unfoldable pub on_conn_data : (idx : ℕ) → ConnRecv → Bool → List ℕ → Option ChildStep
unfolding write_mem zeros
on_conn_data idx r stop mem = do
  mem ← write_mem (idx * buffer_size) (zeros buffer_size) mem
  elim r [
    | bytes bs ↦
        let got = take 1023 bs in
        if length got == 0 then some (record { stop = true; mem = mem; sent = [] }) else (do
          mem ← write_mem (idx * buffer_size) got mem
          some (record { stop = stop; mem = mem; sent = notify idx ∷ [] }))
    | closed ↦ some (record { stop = true; mem = mem; sent = [] })
    | again ↦ some (record { stop = stop; mem = mem; sent = [] })
    | broken ↦ some (record { stop = true; mem = mem; sent = [] })
  ]

unfoldable pub on_pipe_data : PipeRecv → Bool → List ℕ → Option ChildStep
unfolding read_mem
on_pipe_data (client c) stop mem = do
  text ← read_mem (c * buffer_size) buffer_size mem
  some (record { stop = stop; mem = mem; sent = deliver text ∷ [] })
on_pipe_data closed stop mem = some (record { stop = true; mem = mem; sent = [] })
on_pipe_data again stop mem = some (record { stop = stop; mem = mem; sent = [] })
on_pipe_data broken stop mem = some (record { stop = true; mem = mem; sent = [] })

unfoldable pub child_event : (idx : ℕ) → ChildEvent → Bool → List ℕ → Option ChildStep
unfolding on_conn_data on_pipe_data
child_event idx (on_conn r) stop mem = on_conn_data idx r stop mem
child_event idx (on_pipe r) stop mem = on_pipe_data r stop mem
child_event idx other_event stop mem = some (record { stop = stop; mem = mem; sent = [] })

-- the `for` over the events of one epoll_wait: stop_child, and what was sent
unfoldable pub child_events :
    (idx : ℕ) → List (List ℕ × ChildEvent) → Bool → Option (Bool × List ChildAction)
unfolding child_event
child_events idx [] stop = some (stop, [])
child_events idx ((mem, e) ∷ es) stop = do
  r ← child_event idx e stop mem
  (stop, more) ← child_events idx es r.stop
  some (stop, r.sent ++ more)

-- one epoll_wait: its events, or a failure
pub data ChildWait : Type 0 where
  batch : List (List ℕ × ChildEvent) → ChildWait
  failure : ChildWait

-- the while loop; where the list ends the child waits
unfoldable pub run_child : (idx : ℕ) → List ChildWait → Bool → Option (Bool × List ChildAction)
unfolding child_events
run_child idx [] stop = some (stop, [])
run_child idx (failure ∷ ws) stop = some (stop, [])
run_child idx (batch es ∷ ws) stop =
    let round : Option (Bool × List ChildAction) = (do
      (stop, acts) ← child_events idx es stop
      (stop, more) ← run_child idx ws stop
      some (stop, acts ++ more)) in
    if stop then some (stop, []) else round
