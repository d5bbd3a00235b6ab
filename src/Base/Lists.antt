-- ===== src/Base/Lists.antt =====
-- Lists measured by native numbers, comprehensions by Boolean tests, and predicates on elements.
use Prim.Native.Nat.{ℕ, zero, suc, ◌+◌, ◌-◌, min}
use mathlib.Core.Path.{◌≡◌, refl, ap}
use mathlib.Core.Logic.{◌⊎◌, inl, inr}
use mathlib.Core.Bool.{Bool, true, false, ◌||◌, ◌&&◌}
use mathlib.Core.List.{List, [], ◌∷◌, ◌++◌, map}
use native.Mathlib.Omega.{arith}
use semiconductor_agent_know.Base.Tests.{if◌then◌else◌, Bool-cases}
use semiconductor_agent_know.Base.Keys.{Key, ◌==◌}

module _ {ℓ} {A : Type ℓ} where
  abbrev pub length : List A → ℕ
  length [] = 0
  length (x ∷ xs) = suc (length xs)

  -- `xs[:n]` and `xs[n:]`
  abbrev pub take : ℕ → List A → List A
  take zero xs = []
  take (suc n) [] = []
  take (suc n) (x ∷ xs) = x ∷ take n xs

  abbrev pub drop : ℕ → List A → List A
  drop zero xs = xs
  drop (suc n) [] = []
  drop (suc n) (x ∷ xs) = drop n xs

  -- `[x for x in xs if test(x)]`
  abbrev pub filter : (A → Bool) → List A → List A
  filter test [] = []
  filter test (x ∷ xs) = let rest = filter test xs in if test x then x ∷ rest else rest

  -- `any(test(x) for x in xs)` and `all(...)`
  abbrev pub any : (A → Bool) → List A → Bool
  any test [] = false
  any test (x ∷ xs) = test x || any test xs

  abbrev pub all : (A → Bool) → List A → Bool
  all test [] = true
  all test (x ∷ xs) = test x && all test xs

  abbrev pub is_empty : List A → Bool
  is_empty [] = true
  is_empty (x ∷ xs) = false

  -- Membership with its place kept.
  pub data In (a : A) : List A → Type ℓ where
    here : {xs : List A} → In a (a ∷ xs)
    there : {x : A} {xs : List A} → In a xs → In a (x ∷ xs)

  abbrev pub All {κ} : (A → Type κ) → List A → Type κ
  All P [] = Unit
  All P (x ∷ xs) = P x × All P xs

module _ {ℓ} {A : Type ℓ} where
  pub length-append : (xs ys : List A) → length (xs ++ ys) ≡ length xs + length ys
  length-append [] ys = omega arith
  length-append (x ∷ xs) ys = omega (arith, length-append xs ys)

  pub length-take : (n : ℕ) (xs : List A) → length (take n xs) ≡ min n (length xs)
  length-take zero xs = omega arith
  length-take (suc n) [] = omega arith
  length-take (suc n) (x ∷ xs) = omega (arith, length-take n xs)

  pub length-drop : (n : ℕ) (xs : List A) → length (drop n xs) ≡ length xs - n
  length-drop zero xs = omega arith
  length-drop (suc n) [] = omega arith
  length-drop (suc n) (x ∷ xs) = omega (arith, length-drop n xs)

  pub length-map {κ} : {B : Type κ} (xs : List A) (f : A → B) → length (map f xs) ≡ length xs
  length-map [] f = refl
  length-map (x ∷ xs) f = ap suc (length-map xs f)

  pub take-append-drop : (n : ℕ) (xs : List A) → take n xs ++ drop n xs ≡ xs
  take-append-drop zero xs = refl
  take-append-drop (suc n) [] = refl
  take-append-drop (suc n) (x ∷ xs) = ap (λ r. x ∷ r) (take-append-drop n xs)

  pub All-append {κ} : (P : A → Type κ) (xs ys : List A) → All P xs → All P ys → All P (xs ++ ys)
  All-append P [] ys hx hy = hy
  All-append P (x ∷ xs) ys hx hy = (hx.0, All-append P xs ys hx.1 hy)

  pub All-In {κ} : (P : A → Type κ) {a : A} (xs : List A) → All P xs → In a xs → P a
  All-In P [] h m = elim m [ ]
  All-In P (x ∷ xs) h here = h.0
  All-In P (x ∷ xs) h (there m) = All-In P xs h.1 m

  In-if :
      (b : Bool) {a x : A} (xs : List A)
      → In a (if b then x ∷ xs else xs)
      → ((b ≡ true) × (a ≡ x)) ⊎ In a xs
  In-if true xs here = inl (refl, refl)
  In-if true xs (there m) = inr m
  In-if false xs m = inr m

  -- The comprehension keeps exactly the elements that pass the test.
  pub In-filter :
      (test : A → Bool) {a : A} (xs : List A) → In a (filter test xs) → In a xs × (test a ≡ true)
  In-filter test [] m = elim m [ ]
  In-filter test {a} (x ∷ xs) m = elim (In-if (test x) (filter test xs) m) [
    | inl (e, p) ↦ (rw p here, rw p e)
    | inr k ↦ let (p, q) = In-filter test xs k in (there p, q)
  ]

  pub In-filter_intro :
      (test : A → Bool) {a : A} (xs : List A) → In a xs → test a ≡ true → In a (filter test xs)
  In-filter_intro test [] m h = elim m [ ]
  In-filter_intro test (x ∷ xs) here h = rw h here
  In-filter_intro test {a} (x ∷ xs) (there m) h = elim (Bool-cases (test x)) [
    | inl e ↦ rw e (there (In-filter_intro test xs m h))
    | inr e ↦ rw e (In-filter_intro test xs m h)
  ]

  pub all-In :
      (test : A → Bool) {a : A} (xs : List A) → all test xs ≡ true → In a xs → test a ≡ true
  all-In test [] h m = elim m [ ]
  all-In test (x ∷ xs) h here = ground arith
  all-In test (x ∷ xs) h (there m) = all-In test xs (ground arith) m

module _ {ℓ} {A : Type ℓ} ⦃e : Key A⦄ where
  -- `a in xs`
  abbrev pub contains : List A → A → Bool
  contains [] a = false
  contains (x ∷ xs) a = (x == a) || contains xs a

  pub contains-In : (xs : List A) (a : A) → contains xs a ≡ true → In a xs
  contains-In [] a h = absurd (cc)
  contains-In (x ∷ xs) a h = elim (Bool-cases (x == a)) [
    | inl p ↦ rw ((e.is_same_iff x a).0 p) here
    | inr p ↦ there (contains-In xs a (ground arith))
  ]

  pub In-contains : (xs : List A) {a : A} → In a xs → contains xs a ≡ true
  In-contains [] m = elim m [ ]
  In-contains (x ∷ xs) here = ground (arith, (e.is_same_iff x x).1 refl)
  In-contains (x ∷ xs) (there m) = ground (arith, In-contains xs m)
