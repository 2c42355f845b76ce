-- ===== src/SharedChat/Events.antt =====
-- The main loop of socket/ipc/shm.c keeps its table.
use unix_programming.Base.{
  inl, inr, Bool, Bool-cases, true, false, none, some, List, [], ◌∷◌, ◌++◌, ◌&&◌, ◌==◌,
  if◌then◌else◌, ◌>>=◌, Gives, gives, Gives-inv, OnSome, OnSome-at,
}
use unix_programming.SharedChat.{
  Chat, Action, Acted, Signal, sigchld, sigterm, sigint, other_signal, end_all, on_signal,
  on_signals, Event, accepted, signals, from_child, not_readable, on_event, on_events, run,
}
use unix_programming.SharedChat.Table.{IsTable, Forked, on_accept-IsTable}
use unix_programming.SharedChat.Reap.{Waited, reap-IsTable}

-- What the system may report: fork gives pids below PROCESS_LIMIT that no connection has, waitpid
-- those of children in the table.
abbrev pub MaySignal : Signal → Chat → Type 0
MaySignal (sigchld pids) s = Waited pids s
MaySignal sigterm s = Unit
MaySignal sigint s = Unit
MaySignal other_signal s = Unit

abbrev pub MaySignals : List Signal → Chat → Type 0
MaySignals [] s = Unit
MaySignals (g ∷ gs) s = MaySignal g s × OnSome (λ r. MaySignals gs r.0) (on_signal g s)

abbrev pub MayCome : Event → Chat → Type 0
MayCome (accepted none pipefd child_end fork) s = Unit
MayCome (accepted (some connfd) pipefd child_end fork) s = Forked s fork
MayCome (signals gs) s = MaySignals gs s
MayCome (from_child sockfd c) s = Unit
MayCome not_readable s = Unit

abbrev pub MayComeAll : List Event → Chat → Type 0
MayComeAll [] s = Unit
MayComeAll (e ∷ es) s = MayCome e s × OnSome (λ r. MayComeAll es r.0) (on_event e s)

abbrev pub MayRun : List (List Event) → Chat → Type 0
MayRun [] s = Unit
MayRun (es ∷ rounds) s = MayComeAll es s × OnSome (λ r. MayRun rounds r.0) (on_events es s)

flags-IsTable :
    (s : Chat) (stop terminate : Bool)
    → IsTable s
    → IsTable (record s { stop = stop; terminate = terminate })
flags-IsTable s stop terminate h = record {
  size = h.size;
  limit = h.limit;
  entries = λ i less.
      let (c, own) = h.entries i less in
      (c, record { at = own.at; small = own.small; back = own.back });
}

if-IsTable : (b : Bool) (s t : Chat) → IsTable s → IsTable t → IsTable (if b then s else t)
if-IsTable true s t h k = h
if-IsTable false s t h k = k

end_all-IsTable : (s : Chat) → IsTable s → IsTable (end_all s).0
unfolding end_all
end_all-IsTable s h = elim (Bool-cases (s.user_count == 0)) [
  | inl no_users ↦ simp no_users (flags-IsTable s true s.terminate h)
  | inr users ↦ simp users (flags-IsTable s s.stop true h)
]

on_signal-IsTable :
    (g : Signal) (s : Chat) → IsTable s → MaySignal g s → Gives (λ r. IsTable r.0) (on_signal g s)
unfolding on_signal
on_signal-IsTable (sigchld pids) s h k =
    let ((t, acts), run1, (kept, left)) = Gives-inv (reap-IsTable pids s h k) in
    rw (run1, ◌>>=◌)
      (gives (
        if-IsTable (t.terminate && (t.user_count == 0)) (record t { stop = true }) t
          (flags-IsTable t true t.terminate kept) kept))
on_signal-IsTable sigterm s h k = gives (end_all-IsTable s h)
on_signal-IsTable sigint s h k = gives (end_all-IsTable s h)
on_signal-IsTable other_signal s h k = gives h

-- a step that keeps the table, and the steps after it that do
module _ {ℓ} {A : Type ℓ} (step : A → Chat → Acted) (May : A → Chat → Type 0)
    (step-IsTable : (a : A) (s : Chat)
      → IsTable s
      → May a s
      → Gives (λ r. IsTable r.0) (step a s)) where
  both-IsTable :
      (a : A) (s : Chat) (rest : Chat → Acted) (Later : Chat → Type 0)
      → IsTable s
      → May a s
      → OnSome (λ r. Later r.0) (step a s)
      → ((t : Chat) → IsTable t → Later t → Gives (λ r. IsTable r.0) (rest t))
      → Gives
          (λ (r : Chat × List Action). IsTable r.0)
          (do (t, acts) ← step a s; (t, more) ← rest t; some (t, acts ++ more))
  both-IsTable a s rest Later h k later go =
      let ((t, acts), run1, kept) = Gives-inv (step-IsTable a s h k) in
      let l = OnSome-at (λ (r : Chat × List Action). Later r.0) (step a s) later run1 in
      let ((u, more), run2, done) = Gives-inv (go t kept l) in
      rw (run1, ◌>>=◌) (rw (run2, ◌>>=◌) (gives done))

on_signals-IsTable :
    (gs : List Signal) (s : Chat)
    → IsTable s
    → MaySignals gs s
    → Gives (λ r. IsTable r.0) (on_signals gs s)
unfolding on_signals
on_signals-IsTable [] s h k = gives h
on_signals-IsTable (g ∷ gs) s h (k, later) =
    both-IsTable on_signal MaySignal on_signal-IsTable g s (on_signals gs) (MaySignals gs) h k later
      (on_signals-IsTable gs)

on_event-IsTable :
    (e : Event) (s : Chat) → IsTable s → MayCome e s → Gives (λ r. IsTable r.0) (on_event e s)
unfolding on_event
on_event-IsTable (accepted none pipefd child_end fork) s h k = gives h
on_event-IsTable (accepted (some connfd) pipefd child_end fork) s h k =
    on_accept-IsTable connfd pipefd child_end fork s h k
on_event-IsTable (signals gs) s h k = on_signals-IsTable gs s h k
on_event-IsTable (from_child sockfd none) s h k = gives h
on_event-IsTable (from_child sockfd (some c)) s h k = gives h
on_event-IsTable not_readable s h k = gives h

on_events-IsTable :
    (es : List Event) (s : Chat)
    → IsTable s
    → MayComeAll es s
    → Gives (λ r. IsTable r.0) (on_events es s)
unfolding on_events
on_events-IsTable [] s h k = gives h
on_events-IsTable (e ∷ es) s h (k, later) =
    both-IsTable on_event MayCome on_event-IsTable e s (on_events es) (MayComeAll es) h k later
      (on_events-IsTable es)

-- As long as fork gives pids below PROCESS_LIMIT that no connection has, and waitpid gives those of
-- children in the table: from a table that stands, the main loop makes no access outside of users and
-- sub_process, whatever connections, signals and messages come, and ends with a table that stands: at
-- most five connections, each of them where its child's pid leads.
pub run-IsTable :
    (rounds : List (List Event)) (s : Chat)
    → IsTable s
    → MayRun rounds s
    → Gives (λ r. IsTable r.0) (run rounds s)
unfolding run
run-IsTable [] s h k = gives h
run-IsTable (es ∷ rounds) s h (k, later) = elim (Bool-cases s.stop) [
  | inl stopped ↦ simp stopped (gives h)
  | inr on ↦ simp on (
      both-IsTable on_events MayComeAll on_events-IsTable es s (run rounds) (MayRun rounds) h k
        later (run-IsTable rounds))
]
