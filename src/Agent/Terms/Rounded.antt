-- ===== src/Agent/Terms/Rounded.antt =====
-- The coverage of a query is a share, rounded to the nearest ten-thousandth.
use native.Mathlib.Nat.{div-add-mod', mod-lt, mul-le-mul_right}
use semiconductor_agent_know.Doubles.{nearest}
use semiconductor_agent_know.Base.{
  ℕ, ◌+◌, ◌*◌, ◌/◌, ◌%◌, ◌≤◌, ◌<◌, String, Bool, true, false, List, [], ◌∷◌, eqb, ltb, filter,
  contains, is_empty, length, ◌≡◌, refl, arith, inl, inr, Bool-cases, ltb→lt, leb, leb→le,
}
use semiconductor_agent_know.Agent.Text.{Codes, codes}
use semiconductor_agent_know.Agent.Terms.{terms_of, rounded_share, joined, term_coverage, codes_eq}

length-filter_le {ℓ} :
    {A : Type ℓ} (test : A → Bool) (xs : List A) → length (filter test xs) ≤ length xs
length-filter_le test [] = omega arith
length-filter_le test (x ∷ xs) = ground (arith, length-filter_le test xs)

is_empty-length {ℓ} : {A : Type ℓ} (xs : List A) → is_empty xs ≡ true → length xs ≡ 0
is_empty-length [] h = refl
is_empty-length (x ∷ xs) h = absurd (cc h)

nonempty-length {ℓ} : {A : Type ℓ} (xs : List A) → is_empty xs ≡ false → 1 ≤ length xs
nonempty-length [] h = absurd (cc h)
nonempty-length (x ∷ xs) h = omega arith

add_one-mul : (q b : ℕ) → (q + 1) * b ≡ q * b + b
add_one-mul q b = omega arith

nearest_near :
    (q r b n : ℕ)
    → q * b + r ≡ n
    → r < b
    → (2 * (nearest q r b * b) ≤ 2 * n + b) × (2 * n ≤ 2 * (nearest q r b * b) + b)
unfolding nearest
nearest_near q r b n e h = elim (Bool-cases (ltb (2 * r) b)) [
  | inl s ↦ rw s (omega (arith, ltb→lt (2 * r) b s), omega (arith, ltb→lt (2 * r) b s))
  | inr s ↦
      let up = add_one-mul q b in
      let half : b ≤ 2 * r = ground arith in
      elim (Bool-cases (ltb b (2 * r))) [
        | inl t ↦ rw (s, t) (omega arith, omega arith)
        | inr t ↦
            let even : 2 * r ≤ b = ground arith in
            elim (Bool-cases (eqb (q % 2) 0)) [
              | inl v ↦ rw (s, t, v) (omega arith, omega arith)
              | inr v ↦ rw (s, t, v) (omega arith, omega arith)
            ]
      ]
]

nearest_le : (q r b n : ℕ) → q * b + r ≡ n → r < b → n ≤ 10000 * b → nearest q r b ≤ 10000
unfolding nearest
nearest_le q r b n e h most = elim (Bool-cases (leb (nearest q r b) 10000)) [
  | inl l ↦ leb→le (nearest q r b) 10000 l
  | inr l ↦
      let more : 10001 ≤ nearest q r b = ground arith in
      let product = mul-le-mul_right b more in
      absurd (omega (arith, product, (nearest_near q r b n e h).0))
]

abbrev pub query_terms : (Codes → Codes) → String → List Codes
query_terms casefold query = terms_of (casefold (codes query))

-- The terms of the query that the texts hold.
abbrev pub covered_terms : (Codes → Codes) → String → List String → List Codes
covered_terms casefold query texts =
    filter (contains (terms_of (casefold (joined texts)))) (query_terms casefold query)

-- A coverage is at most one, as its field demands, and differs from the share of the terms of the
-- query that the texts hold by at most half of a ten-thousandth.
pub term_coverage_bounds :
    (casefold : Codes → Codes) (query : String) (texts : List String)
    → (term_coverage casefold query texts ≤ 10000)
      × (2 * (term_coverage casefold query texts * length (query_terms casefold query))
          ≤ 2 * (10000 * length (covered_terms casefold query texts))
            + length (query_terms casefold query))
      × (2 * (10000 * length (covered_terms casefold query texts))
          ≤ 2 * (term_coverage casefold query texts * length (query_terms casefold query))
            + length (query_terms casefold query))
unfolding term_coverage rounded_share
term_coverage_bounds casefold query texts =
    let terms = query_terms casefold query in
    let n = 10000 * length (covered_terms casefold query texts) in
    let fewer = length-filter_le (contains (terms_of (casefold (joined texts)))) terms in
    elim (Bool-cases (is_empty terms)) [
      | inl z ↦
          let none_there = is_empty-length terms z in
          rw z (omega arith, omega arith, omega (arith, none_there, fewer))
      | inr z ↦
          let some_there = nonempty-length terms z in
          let whole = div-add-mod' n (length terms) in
          let less = mod-lt n some_there in
          let (up, down) =
            nearest_near (n / length terms) (n % length terms) (length terms) n whole less in
          rw z (nearest_le _ _ (length terms) n whole less (omega (arith, fewer)), up, down)
    ]
