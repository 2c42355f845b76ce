-- ===== src/WebServer/Events.antt =====
-- Every event in the main loop of socket/pool/main.cpp, and every turn of a worker thread, keeps the
-- table of connections.
use unix_programming.Base.{
  ℕ, ◌<◌, ◌≡◌, sym, subst, Bool, true, false, Option, none, some, List, [], ◌∷◌, ℤ, geb_ℕ, ◌≢◌,
  if◌then◌else◌, Run, ok, and_then, Ends, EndsOk, OnOk, EndsOk-Ends, OnOk-at, Ends-and_then,
  OnSome-at, Gives, Gives-inv, Bool-cases, inl, inr,
}
use unix_programming.HttpConn.{HttpConn, Files}
use unix_programming.HttpConn.Connection.{Received, read, init_conn, close_conn}
use unix_programming.HttpConn.Send.{Writev, write, process}
use unix_programming.HttpConn.ReadMachine.Ends.{IsConn}
use unix_programming.WebServer.{
  max_fd, Web, Event, connection, hung_up, readable, writable, other, work, store, append,
  on_connection, on_readable, on_writable, on_work, on_branch, on_event, on_events,
}
use unix_programming.WebServer.Conn.{Placed, init_conn-Placed, kept-Placed, close_conn-Placed}
use unix_programming.WebServer.Calls.{read-IsConn, Kept, write-Kept}
use unix_programming.WebServer.Process.{process-Placed}
use unix_programming.WebServer.Serves.{
  Each, At, IsWeb, updated, with_user-same, store-updated, updated-IsWeb, store-IsWeb, append-IsWeb,
}

abbrev pub Returns : {A : Type 0} → Option A → Type 0
Returns {A} = Gives {0, 0} (λ (r : A). Unit)

-- What epoll reports is an open connection, accept gives a descriptor below MAX_FD, and the results
-- of recv and writev go on until read() and write() return.
abbrev pub MayCome : Event → Web → Type 0
MayCome (connection none) s = Unit
MayCome (connection (some fd)) s = fd < max_fd
MayCome (hung_up fd) s = (s.users fd).sockfd ≢ none
MayCome (readable fd rs) s = ((s.users fd).sockfd ≢ none) × Returns (read (s.users fd) rs)
MayCome (writable fd rs) s = ((s.users fd).sockfd ≢ none) × Returns (write (s.users fd) s.server rs)
MayCome other s = Unit
MayCome work s = Unit

-- Only the parser of a request may fault.
abbrev pub Keeps : Event → Run Web → Type 0
Keeps work = Ends IsWeb
Keeps (connection accepted) = EndsOk IsWeb
Keeps (hung_up fd) = EndsOk IsWeb
Keeps (readable fd rs) = EndsOk IsWeb
Keeps (writable fd rs) = EndsOk IsWeb
Keeps other = EndsOk IsWeb

module _ (s : Web) (h : IsWeb s) where
  on_connection-IsWeb : (a : Option ℕ) → MayCome (connection a) s → EndsOk IsWeb (on_connection a s)
  unfolding on_connection
  on_connection-IsWeb none m = h
  on_connection-IsWeb (some fd) inside = elim (Bool-cases (geb_ℕ s.server.user_count max_fd)) [
    | inl e ↦ rw e (record { opened = h.opened; queued = h.queued })
    | inr e ↦ rw e (
        store-IsWeb fd (init_conn fd (s.users fd) s.server) s h inside
          (init_conn-Placed fd (s.users fd) s.server))
  ]

  module _ (fd : ℕ) (is_open : (s.users fd).sockfd ≢ none) where
    on_hang_up-IsWeb : EndsOk IsWeb (store fd (close_conn true (s.users fd) s.server) s)
    on_hang_up-IsWeb =
        let (inside, placed) = h.opened fd is_open in
        store-IsWeb fd (close_conn true (s.users fd) s.server) s h inside
          (close_conn-Placed fd true (s.users fd) s.server placed)

    on_readable-IsWeb :
        (max_requests : ℕ) (rs : List Received)
        → Returns (read (s.users fd) rs)
        → EndsOk IsWeb (on_readable max_requests fd rs s)
    unfolding on_readable
    on_readable-IsWeb max_requests rs returns =
        let (inside, placed) = h.opened fd is_open in
        let ((more, c), run, u) = Gives-inv returns in
        let (kept, same) =
          OnSome-at (λ r. IsConn r.1 × (r.1.sockfd ≡ (s.users fd).sockfd)) (read (s.users fd) rs)
            (read-IsConn (s.users fd) rs placed.conn) run in
        rw run
          (by_result max_requests more c inside (kept-Placed fd (s.users fd) c placed kept same))
      where
        by_result :
            (m : ℕ) (b : Bool) (c : HttpConn)
            → fd < max_fd
            → Placed fd c
            → EndsOk IsWeb (
                if b
                then and_then (store fd (c, s.server) s) (λ t. ok (append m fd t))
                else store fd (close_conn true c s.server) s)
        by_result m true c inside k = rw (store-updated fd (c, s.server) s inside) (
            append-IsWeb m fd (updated fd (c, s.server) s)
              (updated-IsWeb fd c s.server s h inside k)
              (inside, subst (Placed fd) (sym (with_user-same s.users fd c)) k))
        by_result m false c inside k =
            store-IsWeb fd (close_conn true c s.server) s h inside
              (close_conn-Placed fd true c s.server k)

    on_writable-IsWeb :
        (rs : List Writev)
        → Returns (write (s.users fd) s.server rs)
        → EndsOk IsWeb (on_writable fd rs s)
    unfolding on_writable
    on_writable-IsWeb rs returns =
        let (inside, placed) = h.opened fd is_open in
        let (r, run, u) = Gives-inv returns in
        let kept =
          OnSome-at (Kept (s.users fd)) (write (s.users fd) s.server rs)
            (write-Kept (s.users fd) s.server rs placed.conn) run in
        let k = kept-Placed fd (s.users fd) r.conn placed kept.conn kept.sockfd in
        rw run (elim (Bool-cases r.result) [
          | inl e ↦ rw e (store-IsWeb fd (r.conn, r.server) s h inside k)
          | inr e ↦ rw e (
              store-IsWeb fd (close_conn true r.conn r.server) s h inside
                (close_conn-Placed fd true r.conn r.server k))
        ])

on_work-IsWeb : (fs : Files) (s : Web) → IsWeb s → Ends IsWeb (on_work fs s)
unfolding on_work
on_work-IsWeb fs s h = taken s.workqueue h.queued
  where
    taken :
        (q : List ℕ)
        → Each (At s.users) q
        → Ends IsWeb (elim q [
          | [] ↦ ok s
          | fd ∷ fds ↦
              and_then
                (process fs (s.users fd) s.server)
                λ r. store fd r (record s { workqueue = fds })
        ])
    taken [] queued = h
    taken (fd ∷ fds) ((inside, placed), queued) =
        let t = record s { workqueue = fds } in
        let left : IsWeb t = record { opened = h.opened; queued = queued } in
        Ends-and_then (λ r. Placed fd r.0) IsWeb (process fs (s.users fd) s.server)
          (λ r. store fd r t) (process-Placed fd s.server fs (s.users fd) placed)
          λ r run k. EndsOk-Ends IsWeb (store fd r t) (store-IsWeb fd r t left inside k)

on_branch-IsWeb :
    (max_requests : ℕ) (fs : Files) (e : Event) (s : Web)
    → IsWeb s
    → MayCome e s
    → Keeps e (on_branch max_requests fs e s)
unfolding on_branch
on_branch-IsWeb m fs (connection a) s h may = on_connection-IsWeb s h a may
on_branch-IsWeb m fs (hung_up fd) s h may = on_hang_up-IsWeb s h fd may
on_branch-IsWeb m fs (readable fd rs) s h (is_open, returns) =
    on_readable-IsWeb s h fd is_open m rs returns
on_branch-IsWeb m fs (writable fd rs) s h (is_open, returns) =
    on_writable-IsWeb s h fd is_open rs returns
on_branch-IsWeb m fs other s h may = h
on_branch-IsWeb m fs work s h may = on_work-IsWeb fs s h

-- the server, where m_user_count is found to hold a value
abbrev pub seen : ℤ → Web → Web
seen user_count s = record s { server = record s.server { user_count = user_count } }

pub on_event-IsWeb :
    (max_requests : ℕ) (fs : Files) (user_count : ℤ) (e : Event) (s : Web)
    → IsWeb s
    → MayCome e (seen user_count s)
    → Keeps e (on_event max_requests fs user_count e s)
unfolding on_event
on_event-IsWeb m fs n e s h may =
    on_branch-IsWeb m fs e (seen n s) (record { opened = h.opened; queued = h.queued }) may

abbrev pub MayServe : (max_requests : ℕ) → Files → List (ℤ × Event) → Web → Type 0
MayServe m fs [] s = Unit
MayServe m fs ((n, e) ∷ es) s = MayCome e (seen n s) × OnOk (MayServe m fs es) (on_event m fs n e s)

Keeps-Ends : (e : Event) (r : Run Web) → Keeps e r → Ends IsWeb r
Keeps-Ends work r k = k
Keeps-Ends (connection accepted) r k = EndsOk-Ends IsWeb r k
Keeps-Ends (hung_up fd) r k = EndsOk-Ends IsWeb r k
Keeps-Ends (readable fd rs) r k = EndsOk-Ends IsWeb r k
Keeps-Ends (writable fd rs) r k = EndsOk-Ends IsWeb r k
Keeps-Ends other r k = EndsOk-Ends IsWeb r k

pub on_events-IsWeb :
    (max_requests : ℕ) (fs : Files) (es : List (ℤ × Event)) (s : Web)
    → IsWeb s
    → MayServe max_requests fs es s
    → Ends IsWeb (on_events max_requests fs es s)
unfolding on_events
on_events-IsWeb m fs [] s h may = h
on_events-IsWeb m fs ((n, e) ∷ es) s h (may, later) =
    Ends-and_then IsWeb IsWeb (on_event m fs n e s) (on_events m fs es)
      (Keeps-Ends e (on_event m fs n e s) (on_event-IsWeb m fs n e s h may))
      λ t run k.
        on_events-IsWeb m fs es t k (OnOk-at (MayServe m fs es) (on_event m fs n e s) later run)
