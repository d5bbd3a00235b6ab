-- ===== src/Base/Every.antt =====
-- Tests that all elements of a list pass, and membership by a test.
use mathlib.Core.Path.{◌≡◌, refl}
use mathlib.Core.Logic.{inl, inr, ◌⊎◌}
use mathlib.Core.Bool.{Bool, true, false, not}
use mathlib.Core.List.{List, [], ◌∷◌, map}
use native.Mathlib.Omega.{arith}
use semiconductor_agent_know.Base.Tests.{Bool-cases}
use semiconductor_agent_know.Base.Keys.{Key, ◌==◌}
use semiconductor_agent_know.Base.Lists.{In, here, there, all, filter, contains}

module _ {ℓ} {A : Type ℓ} (keep leave : A → Bool) where
  -- What is kept and not left out passes a test that the single elements pass.
  pub all-kept :
      (test : A → Bool)
      → ((a : A) → keep a ≡ true → leave a ≡ false → test a ≡ true)
      → (xs : List A) → all test (filter (λ a. not (leave a)) (filter keep xs)) ≡ true
  all-kept test h [] = refl
  all-kept test h (x ∷ xs) = ground (arith, h x, all-kept test h xs)

module _ {ℓ} {A : Type ℓ} ⦃e : Key A⦄ where
  pub all-contains :
      (test : A → Bool) (xs : List A) (a : A)
      → all test xs ≡ true
      → contains xs a ≡ true
      → test a ≡ true
  all-contains test [] a h m = absurd (cc)
  all-contains test (x ∷ xs) a h m = ground (arith, e.is_same_iff x a, all-contains test xs a)

  pub all_same-tail :
      (p r : A) (rs : List A) → all (λ a. a == p) (r ∷ rs) ≡ true → all (λ a. a == r) rs ≡ true
  all_same-tail p r rs h =
      let same : r ≡ p = (e.is_same_iff r p).0 (ground arith) in rw same (ground arith)

  -- A test that all pass but a value that is not there.
  pub all-without :
      (a : A) (test other : A → Bool)
      → ((x : A) → test x ≡ true → (x == a) ≡ false → other x ≡ true)
      → (xs : List A) → all test xs ≡ true
      → contains xs a ≡ false
      → all other xs ≡ true
  all-without a test other h [] t n = refl
  all-without a test other h (x ∷ xs) t n = ground (arith, h x, all-without a test other h xs)

  pub contains-filter :
      (keep : A → Bool) (xs : List A) (a : A)
      → keep a ≡ true
      → contains (filter keep xs) a ≡ contains xs a
  contains-filter keep [] a k = refl
  contains-filter keep (x ∷ xs) a k = elim (Bool-cases (x == a)) [
    | inl same ↦
        let e : x ≡ a = (e.is_same_iff x a).0 same in
        let kx : keep x ≡ true = rw e k in rw (kx, same) refl
    | inr other ↦ ground (arith, contains-filter keep xs a k)
  ]

pub refuted : (b : Bool) → (b ≡ true → ⊥) → b ≡ false
refuted true h = absurd (h refl)
refuted false h = refl

module _ {ℓ} {A : Type ℓ} (test : A → Bool) where
  pub all_intro : (xs : List A) → ((a : A) → In a xs → test a ≡ true) → all test xs ≡ true
  all_intro [] h = refl
  all_intro (x ∷ xs) h =
      let p = h x here in let q = all_intro xs (λ a m. h a (there m)) in ground arith

  pub all-filter :
      (keep : A → Bool) (xs : List A) → all test xs ≡ true → all test (filter keep xs) ≡ true
  all-filter keep [] h = refl
  all-filter keep (x ∷ xs) h = ground (arith, all-filter keep xs)

pub In-cons {ℓ} : {A : Type ℓ} {a x : A} {xs : List A} → In a (x ∷ xs) → (a ≡ x) ⊎ In a xs
In-cons here = inl refl
In-cons (there m) = inr m

pub In-map {ℓ κ} :
    {A : Type ℓ} {B : Type κ} (f : A → B) {b : B} (xs : List A)
    → In b (map f xs)
    → (a : A) × In a xs × (b ≡ f a)
In-map f [] m = elim m [ ]
In-map f (x ∷ xs) here = (x, here, refl)
In-map f (x ∷ xs) (there m) = let (a, n, e) = In-map f xs m in (a, there n, e)

pub In-map_intro {ℓ κ} :
    {A : Type ℓ} {B : Type κ} (f : A → B) {a : A} (xs : List A) → In a xs → In (f a) (map f xs)
In-map_intro f (x ∷ xs) here = here
In-map_intro f (x ∷ xs) (there m) = there (In-map_intro f xs m)
In-map_intro f [] m = elim m [ ]
