-- ===== src/TimerList/Unlink.antt =====
-- A node taken out of the list of socket/timer/sigalrm_list_timer.h.
use unix_programming.Base.{
  ℕ, ◌≡◌, ◌≢◌, refl, ◌∙◌, inl, inr, Bool-cases, true, false, ◌||◌, none, some, List, [], ◌∷◌, ◌++◌,
  arith, ◌==◌,
}
use unix_programming.TimerList.{Ptr, Node, Memory}
use unix_programming.TimerList.Chain.{
  Entry, node, first, last, has, Chain, Distinct, Chain-frame, ne_of_out, out_of_rest, ne_of_member,
}

-- the pointer to the last node of `xs`, or to the one before it
abbrev pub back : Ptr → List Entry → Ptr
back before [] = before
back before (x ∷ xs) = back (some x.address) xs

pub back-last : (a : ℕ) (xs : List Entry) → back (some a) xs ≡ some (last a xs)
back-last a [] = refl
back-last a (x ∷ xs) = back-last x.address xs

pub has-append : (a : ℕ) (xs ys : List Entry) → has a (xs ++ ys) ≡ (has a xs || has a ys)
has-append a [] ys = refl
has-append a (x ∷ xs) ys = ground (arith, has-append a xs ys)

pub out_left : (a : ℕ) (xs ys : List Entry) → has a (xs ++ ys) ≡ false → has a xs ≡ false
out_left a xs ys out = let e = has-append a xs ys in ground arith

pub out_right : (a : ℕ) (xs ys : List Entry) → has a (xs ++ ys) ≡ false → has a ys ≡ false
out_right a xs ys out = let e = has-append a xs ys in ground arith

pub last-member : (x : Entry) (xs : List Entry) → has (last x.address xs) (x ∷ xs) ≡ true
last-member x [] = ground arith
last-member x (y ∷ xs) = ground (arith, last-member y xs)

pub first-append :
    (xs ys : List Entry) (after : Ptr) → first (xs ++ ys) after ≡ first xs (first ys after)
first-append [] ys after = refl
first-append (x ∷ xs) ys after = refl

pub last-append :
    (a : ℕ) (xs : List Entry) (y : Entry) (ys : List Entry)
    → last a (xs ++ y ∷ ys) ≡ last y.address ys
last-append a [] y ys = refl
last-append a (x ∷ xs) y ys = last-append x.address xs y ys

pub Chain-append :
    (h : Memory) (b : Ptr) (xs ys : List Entry) (a : Ptr)
    → Chain h b xs (first ys a)
    → Chain h (back b xs) ys a
    → Chain h b (xs ++ ys) a
Chain-append h b [] ys a c d = d
Chain-append h b (x ∷ xs) ys a c d =
    (rw (first-append xs ys a) c.0, Chain-append h (some x.address) xs ys a c.1 d)

pub Chain-split :
    (h : Memory) (b : Ptr) (xs ys : List Entry) (a : Ptr)
    → Chain h b (xs ++ ys) a
    → Chain h b xs (first ys a) × Chain h (back b xs) ys a
Chain-split h b [] ys a c = (tt, c)
Chain-split h b (x ∷ xs) ys a c =
    let rest = Chain-split h (some x.address) xs ys a c.1 in
    ((rw (← first-append xs ys a) c.0, rest.0), rest.1)

-- The memory `g` is `h` with the neighbours of `t` pointing past it.
pub record PointsPast (h g : Memory) (b : Ptr) (pre post : List Entry) : Type 0 where
  pub same :
      (a : ℕ)
      → has a (pre ++ post) ≡ true
      → back b pre ≢ some a
      → first post none ≢ some a
      → g a ≡ h a
  pub to_next :
      (p : ℕ) (n : Node)
      → has p pre ≡ true
      → back b pre ≡ some p
      → h p ≡ some n
      → g p ≡ some (record n { next = first post none })
  pub to_prev :
      (y : ℕ) (n : Node)
      → first post none ≡ some y
      → h y ≡ some n
      → g y ≡ some (record n { prev = back b pre })

pub first-ne : (a : ℕ) (xs : List Entry) → has a xs ≡ false → first xs none ≢ some a
first-ne a [] out e = cc
first-ne a (x ∷ xs) out e = ground arith

pub back-ne : (a b : ℕ) (xs : List Entry) → has a xs ≡ false → a ≢ b → back (some b) xs ≢ some a
back-ne a b [] out ne e = ground arith
back-ne a b (x ∷ xs) out ne e =
    back-ne a x.address xs (out_of_rest a x xs out) (ne_of_out a x xs out) e

-- a member of the list without `t` is one of the list
pub out_past :
    (a : ℕ) (pre : List Entry) (t : Entry) (post : List Entry)
    → has a (pre ++ t ∷ post) ≡ false
    → (has a pre ≡ false) × (a ≢ t.address) × (has a post ≡ false)
out_past a pre t post out =
    let e = has-append a pre (t ∷ post) in (ground arith, (λ same. ground arith), ground arith)

module _ (h g : Memory) (t : Entry) (post : List Entry) where
  PointsPast-tail :
      (b : Ptr) (x : Entry) (pre : List Entry)
      → PointsPast h g b (x ∷ pre) post
      → PointsPast h g (some x.address) pre post
  PointsPast-tail b x pre p = record {
    same = λ a m nb nf. p.same a (ground arith) nb nf;
    to_next = λ q n m e f. p.to_next q n (ground arith) e f;
    to_prev = p.to_prev;
  }

  -- the links of one node in front of `t`
  own_links :
      (b : Ptr) (x : Entry) (pre : List Entry)
      → h x.address ≡ some (node x b (first (pre ++ t ∷ post) none))
      → has x.address (pre ++ t ∷ post) ≡ false
      → PointsPast h g b (x ∷ pre) post
      → g x.address ≡ some (node x b (first (pre ++ post) none))
  own_links b x [] own out p =
      p.to_next x.address (node x b (some t.address)) (ground arith) refl own
  own_links b x (x' ∷ pre) own out p =
      let (in_pre, at, in_post) = out_past x.address (x' ∷ pre) t post out in
      p.same x.address (ground arith)
        (back-ne x.address x'.address pre (out_of_rest x.address x' pre in_pre)
          (ne_of_out x.address x' pre in_pre))
        (first-ne x.address post in_post)
      ∙ own

Chain-front :
    (h g : Memory) (b c : Ptr) (post : List Entry)
    → Chain h c post none
    → Distinct post
    → ((a : ℕ) → has a post ≡ true → b ≢ some a)
    → PointsPast h g b [] post
    → Chain g b post none
Chain-front h g b c [] ch d apart p = tt
Chain-front h g b c (y ∷ ys) ch d apart p = (
  p.to_prev y.address (node y c (first ys none)) refl ch.0,
  Chain-frame h g (some y.address) ys none
      (λ a m.
        let ay = ne_of_member a y.address ys m d.0 in
        p.same a (ground arith) (apart a (ground arith)) (λ e. ay (cc)))
      ch.1,
)

module _ (h g : Memory) (t : Entry) (post : List Entry) where
  pub Chain-past :
      (b : Ptr) (pre : List Entry)
      → Chain h b (pre ++ t ∷ post) none
      → Distinct (pre ++ t ∷ post)
      → ((a : ℕ) → has a (pre ++ post) ≡ true → b ≢ some a)
      → PointsPast h g b pre post
      → Chain g b (pre ++ post) none
  Chain-past b [] c d apart p = Chain-front h g b (some t.address) post c.1 d.1 apart p
  Chain-past b (x ∷ pre) c d apart p = (
    own_links h g t post b x pre c.0 d.0 p,
    Chain-past (some x.address) pre c.1 d.1
        (λ a m e.
          let out = out_past x.address pre t post d.0 in
          let both = has-append a pre post in
          let ne =
            ne_of_member a x.address (pre ++ post) m
              (has-append x.address pre post ∙ ground (arith, out.0, out.2)) in
          ne (cc))
        (PointsPast-tail h g t post b x pre p),
  )

pub Distinct-past :
    (pre : List Entry) (t : Entry) (post : List Entry)
    → Distinct (pre ++ t ∷ post)
    → Distinct (pre ++ post) × (has t.address (pre ++ post) ≡ false)
Distinct-past [] t post d = (d.1, d.0)
Distinct-past (x ∷ pre) t post d =
    let (rest, out) = Distinct-past pre t post d.1 in
    let (in_pre, at, in_post) = out_past x.address pre t post d.0 in
    ((has-append x.address pre post ∙ ground (arith, in_pre, in_post), rest), ground arith)

pub apart : (xs ys : List Entry) (a : ℕ) → Distinct (xs ++ ys) → has a xs ≡ true → has a ys ≡ false
apart [] ys a d m = cc
apart (x ∷ xs) ys a d m = elim (Bool-cases (a == x.address)) [
  | inl same ↦
      let e : a ≡ x.address = ground arith in
      let out = has-append x.address xs ys in rw e (ground (arith, out, d.0))
  | inr other ↦ apart xs ys a d.1 (ground arith)
]

pub Distinct-right : (xs ys : List Entry) → Distinct (xs ++ ys) → Distinct ys
Distinct-right [] ys d = d
Distinct-right (x ∷ xs) ys d = Distinct-right xs ys d.1
