-- ===== src/Base/Runs.antt =====
-- Total correctness of a run on fuel: there is a value, and it satisfies a postcondition.
use mathlib.Core.Path.{◌≡◌, refl, subst}
use mathlib.Core.Option.{Option, none, some}

-- Option as a monad: none is a fault, or fuel that ran out
infixl 5 ◌>>=◌
abbrev pub ◌>>=◌ {ℓ κ} : {A : Type ℓ} {B : Type κ} → Option A → (A → Option B) → Option B
none >>= f = none
some a >>= f = f a

-- a value; undefined behaviour, such as an access outside an array; the model's fuel running out
pub data Run {ℓ} (A : Type ℓ) : Type ℓ where
  ok : A → Run A
  fault exhausted : Run A

abbrev pub and_then {ℓ κ} : {A : Type ℓ} {B : Type κ} → Run A → (A → Run B) → Run B
and_then (ok a) f = f a
and_then fault f = fault
and_then exhausted f = exhausted

-- an access that may fault
abbrev pub checked_access {ℓ κ} : {A : Type ℓ} {B : Type κ} → Option A → (A → Run B) → Run B
checked_access none f = fault
checked_access (some a) f = f a

pub data Gives {ℓ κ} {A : Type ℓ} (P : A → Type κ) : Option A → Type (ℓ ⊔ κ) where
  gives : {a : A} → P a → Gives P (some a)

module _ {ℓ κ} {A : Type ℓ} {P : A → Type κ} where
  pub Gives-map {κ'} :
      {Q : A → Type κ'} {r : Option A} → Gives P r → ((a : A) → P a → Q a) → Gives Q r
  Gives-map (gives p) k = gives (k _ p)

  pub Gives-inv : {r : Option A} → Gives P r → (a : A) × (r ≡ some a) × P a
  Gives-inv (gives p) = (_, refl, p)

  pub Gives-at : {a : A} {r : Option A} → Gives P r → r ≡ some a → P a
  Gives-at (gives p) e = subst P (cc) p

-- if there is a value, it satisfies `P`
abbrev pub OnSome {ℓ κ} : {A : Type ℓ} → (A → Type κ) → Option A → Type κ
OnSome P none = Unit
OnSome P (some a) = P a

module _ {ℓ κ κ'} {A : Type ℓ} {B : Type κ} (P : B → Type κ') where
  pub OnSome-bind :
      (m : Option A) (f : A → Option B)
      → ((a : A) → m ≡ some a → OnSome P (f a))
      → OnSome P (m >>= f)
  OnSome-bind none f h = tt
  OnSome-bind (some a) f h = h a refl

module _ {ℓ κ} {A : Type ℓ} (P : A → Type κ) where
  pub OnSome-at : (m : Option A) {a : A} → OnSome P m → m ≡ some a → P a
  OnSome-at none h e = cc
  OnSome-at (some b) h e = subst P (cc) h

-- a run that may fault and never runs out of fuel
abbrev pub Ends {ℓ} : {A : Type ℓ} → (A → Type 0) → Run A → Type 0
Ends P (ok a) = P a
Ends P fault = Unit
Ends P exhausted = ⊥

-- if the run ends with a value, it satisfies `P`
abbrev pub OnOk {ℓ κ} : {A : Type ℓ} → (A → Type κ) → Run A → Type κ
OnOk P (ok a) = P a
OnOk P fault = Unit
OnOk P exhausted = Unit

-- the run ends with a value that satisfies `P`
abbrev pub EndsOk {ℓ} : {A : Type ℓ} → (A → Type 0) → Run A → Type 0
EndsOk P (ok a) = P a
EndsOk P fault = ⊥
EndsOk P exhausted = ⊥

module _ {ℓ} {A : Type ℓ} (P : A → Type 0) where
  pub EndsOk-Ends : (m : Run A) → EndsOk P m → Ends P m
  EndsOk-Ends (ok a) h = h
  EndsOk-Ends fault h = elim h [ ]
  EndsOk-Ends exhausted h = elim h [ ]

  pub Ends-and_then {κ} :
      {B : Type κ} (R : B → Type 0) (m : Run A) (f : A → Run B)
      → Ends P m
      → ((a : A) → m ≡ ok a → P a → Ends R (f a))
      → Ends R (and_then m f)
  Ends-and_then R (ok a) f h g = g a refl h
  Ends-and_then R fault f h g = tt
  Ends-and_then R exhausted f h g = h

  pub OnOk-at : (m : Run A) {a : A} → OnOk P m → m ≡ ok a → P a
  OnOk-at (ok b) h e = subst P (cc) h
  OnOk-at fault h e = cc
  OnOk-at exhausted h e = cc
