-- ===== src/InactiveLinks/Data.antt =====
-- Data on a connection of socket/timer/handling_inactive_link.cpp.
use unix_programming.Base.{
  ℕ, ◌+◌, ◌≤◌, ◌≡◌, Bool, true, false, ◌&&◌, not, List, [], ◌∷◌, ◌++◌, ◌==◌, if◌then◌else◌,
}
use unix_programming.TimerList.Chain.{Entry}
use unix_programming.TimerList.Loop.{insert}
use unix_programming.InactiveLinks.{Server, Received, some_bytes, again, broken, closed_by_peer}
use unix_programming.InactiveLinks.Entries.{has_user}
use unix_programming.InactiveLinks.Serves.{Serves}

-- whether recv's result closes the connection
abbrev pub closes : Received → Bool
closes some_bytes = false
closes again = false
closes broken = true
closes closed_by_peer = true

-- The timers that are left of a list with `t` of the connection: bytes put `t` off to 3 * TIMESLOT
-- after `now`, nothing to read leaves it, and all else deletes it.
abbrev pub remaining : Received → (now : ℕ) → (pre : List Entry) → Entry → List Entry → List Entry
remaining some_bytes now pre t post = pre ++ insert (record t { expire = now + 15 }) post
remaining again now pre t post = pre ++ t ∷ post
remaining broken now pre t post = pre ++ post
remaining closed_by_peer now pre t post = pre ++ post

-- what data on the connection `fd` leaves
pub record AfterData (fd now : ℕ) (r : Received) (s : Server) (xs : List Entry) (s' : Server)
    : Type 0 where
  pub timers : List Entry
  pub serves : Serves now s' timers
  pub place :
      (pre : List Entry) × (t : Entry) × (post : List Entry) × (xs ≡ pre ++ t ∷ post)
      × (t.user_data ≡ fd)
      × (timers ≡ remaining r now pre t post)
  pub users :
      (u : ℕ)
      → has_user u timers ≡ (if closes r then not (u == fd) && has_user u xs else has_user u xs)
  pub closed : s'.closed ≡ (if closes r then s.closed ++ fd ∷ [] else s.closed)

module _ (fd old now : ℕ) (s : Server) (pre : List Entry) (t : Entry) (post : List Entry)
    (h : Serves old s (pre ++ t ∷ post)) (later : old ≤ now) (user : t.user_data ≡ fd) where
  abbrev all : List Entry
  all = pre ++ t ∷ post

  abbrev put_off_timer : Entry
  put_off_timer = record t { expire = now + 15 }
