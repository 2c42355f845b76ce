-- ===== src/WebServer/Serves.antt =====
-- What the main loop of socket/pool/main.cpp keeps true of its connections.
use unix_programming.Base.{
  ℕ, ◌<◌, ◌≡◌, ◌≢◌, refl, none, if◌then◌else◌, subst, arith, true, List, [], ◌∷◌, ◌++◌, ◌==◌, ltb,
  length, ok, EndsOk, Bool-cases, inl, inr,
}
use unix_programming.HttpConn.{HttpConn}
use unix_programming.HttpConn.Connection.{Server}
use unix_programming.WebServer.{max_fd, Web, store, append}
use unix_programming.WebServer.Conn.{Placed}

abbrev pub Each : (ℕ → Type 0) → List ℕ → Type 0
Each P [] = Unit
Each P (x ∷ xs) = P x × Each P xs

Each-map : (P Q : ℕ → Type 0) (xs : List ℕ) → Each P xs → ((x : ℕ) → P x → Q x) → Each Q xs
Each-map P Q [] h k = tt
Each-map P Q (x ∷ xs) (h, hs) k = (k x h, Each-map P Q xs hs k)

Each-append : (P : ℕ → Type 0) (xs : List ℕ) (x : ℕ) → Each P xs → P x → Each P (xs ++ x ∷ [])
Each-append P [] x h k = (k, tt)
Each-append P (y ∷ xs) x (h, hs) k = (h, Each-append P xs x hs k)

-- the connection at `fd` is in the table and at its place
abbrev pub At : (ℕ → HttpConn) → ℕ → Type 0
At users fd = (fd < max_fd) × Placed fd (users fd)

-- Every open connection, and every one that waits for a thread, is at its place in the table, with
-- its indices in order.
pub record IsWeb (s : Web) : Type 0 where
  pub opened : (fd : ℕ) → (s.users fd).sockfd ≢ none → At s.users fd
  pub queued : Each (At s.users) s.workqueue

abbrev with_user : (ℕ → HttpConn) → ℕ → HttpConn → ℕ → HttpConn
with_user users fd c x = if x == fd then c else users x

pub with_user-same : (users : ℕ → HttpConn) (fd : ℕ) (c : HttpConn) → with_user users fd c fd ≡ c
with_user-same users fd c = ground arith

abbrev pub updated : ℕ → HttpConn × Server → Web → Web
updated fd r s = record s { users = with_user s.users fd r.0; server = r.1 }

pub store-updated :
    (fd : ℕ) (r : HttpConn × Server) (s : Web) → fd < max_fd → store fd r s ≡ ok (updated fd r s)
unfolding store
store-updated fd r s h = let e : ltb fd max_fd ≡ true = ground arith in rw e refl

with_user-at :
    (P : ℕ → HttpConn → Type 0) (users : ℕ → HttpConn) (fd x : ℕ) (c : HttpConn)
    → P fd c
    → P x (users x)
    → P x (with_user users fd c x)
with_user-at P users fd x c h k = elim (Bool-cases (x == fd)) [
  | inl e ↦ let z : fd ≡ x = ground arith in rw e (subst (λ (y : ℕ). P y c) z h)
  | inr e ↦ rw e k
]

pub updated-IsWeb :
    (fd : ℕ) (c : HttpConn) (w : Server) (s : Web)
    → IsWeb s
    → fd < max_fd
    → Placed fd c
    → IsWeb (updated fd (c, w) s)
updated-IsWeb fd c w s h inside k = record {
  opened = λ x.
      with_user-at (λ x c. c.sockfd ≢ none → (x < max_fd) × Placed x c) s.users fd x c
        (λ z. (inside, k)) (h.opened x);
  queued =
      Each-map (At s.users) _ s.workqueue h.queued
        λ x p. with_user-at (λ x c. (x < max_fd) × Placed x c) s.users fd x c (inside, k) p;
}

pub store-IsWeb :
    (fd : ℕ) (r : HttpConn × Server) (s : Web)
    → IsWeb s
    → fd < max_fd
    → Placed fd r.0
    → EndsOk IsWeb (store fd r s)
store-IsWeb fd (c, w) s h inside k =
    rw (store-updated fd (c, w) s inside) (updated-IsWeb fd c w s h inside k)

pub append-IsWeb : (m fd : ℕ) (s : Web) → IsWeb s → At s.users fd → IsWeb (append m fd s)
unfolding append
append-IsWeb m fd s h p = elim (Bool-cases (ltb m (length s.workqueue))) [
  | inl e ↦ rw e h
  | inr e ↦
      rw e
        (record { opened = h.opened; queued = Each-append (At s.users) s.workqueue fd h.queued p })
]
