-- ===== src/Retrieval/Cut.antt =====
-- How many candidates a search keeps.
use semiconductor_agent_know.Base.{
  ℕ, zero, suc, ◌+◌, ◌-◌, min, max, some, List, [], ◌∷◌, length, take, drop, length-take,
  length-drop, leb, ◌≡◌, ◌≤◌, ◌<◌, refl, ap, arith, inl, inr, Bool-cases, Option-cases,
}
use semiconductor_agent_know.Retrieval.{
  RetrievalCandidate, is_cliff, cliff_at, cliff_in, select_candidates,
}

cliff_at_bounds :
    (i : ℕ) (p : RetrievalCandidate) (cs : List RetrievalCandidate) {n : ℕ}
    → cliff_at i p cs ≡ some n
    → (i ≤ n) × (n < i + length cs)
unfolding cliff_at
cliff_at_bounds i p [] h = absurd (cc)
cliff_at_bounds i p (c ∷ cs) {n} h = elim (Bool-cases (is_cliff p c)) [
  | inl e ↦ let same : some i ≡ some n = rw e at h in ground arith
  | inr e ↦
      let later : cliff_at (suc i) c cs ≡ some n = rw e at h in
      omega (arith, cliff_at_bounds (suc i) c cs later)
]

cliff_in_bounds :
    (i : ℕ) (cs : List RetrievalCandidate) {n : ℕ}
    → cliff_in i cs ≡ some n
    → (i ≤ n) × (n < i + (length cs - 1))
cliff_in_bounds i [] h = absurd (cc)
cliff_in_bounds i (p ∷ cs) h = omega (arith, cliff_at_bounds i p cs h)

take-take {ℓ} : {A : Type ℓ} (m n : ℕ) (xs : List A) → m ≤ n → take m (take n xs) ≡ take m xs
take-take zero n xs h = refl
take-take (suc m) zero xs h = absurd (omega arith)
take-take (suc m) (suc n) [] h = refl
take-take (suc m) (suc n) (x ∷ xs) h = ap (λ r. x ∷ r) (take-take m n xs (omega arith))

-- A cut keeps the best candidates: the first ones, all of them if there are at most three, and else
-- at least three and at most eight, and never more than were asked for, or three.
pub select_candidates_bounds :
    (candidates : List RetrievalCandidate) (top : ℕ)
    → (n : ℕ) × ((select_candidates candidates top).0 ≡ take n candidates)
      × (min 3 (length candidates) ≤ length (select_candidates candidates top).0)
      × (length (select_candidates candidates top).0 ≤ min (max top 3) 8)
unfolding select_candidates
select_candidates_bounds [] top = (0, refl, omega arith, omega arith)
select_candidates_bounds (c ∷ cs) top =
    let all = c ∷ cs in
    let most = min (max top 3) 8 in
    let least = min 3 (length (take most all)) in
    let size = length-take most all in
    elim (Bool-cases (leb (length all) most)) [
      | inl e ↦ (most, rw e refl, rw e (omega (arith, size)), rw e (omega (arith, size)))
      | inr e ↦
          let more : most < length all = ground arith in
          elim (Option-cases (cliff_in least (drop (least - 1) (take most all)))) [
            | inl q ↦ (
              most,
              rw (e, q) refl,
              rw (e, q) (omega (arith, size)),
              rw (e, q) (omega (arith, size)),
            )
            | inr (k, q) ↦
                let (low, high) = cliff_in_bounds least (drop (least - 1) (take most all)) q in
                let dropped = length-drop (least - 1) (take most all) in
                let within : k ≤ most = omega arith in
                let cut = length-take k (take most all) in
                (
                  k,
                  rw (e, q) (take-take k most all within),
                  rw (e, q) (omega arith),
                  rw (e, q) (omega arith),
                )
          ]
    ]
