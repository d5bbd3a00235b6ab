-- ===== src/Doubles/Fuel.antt =====
-- The fuel of the rounding is enough for every quotient that is at most 1.
use semiconductor_agent_know.Base.{
  ℕ, zero, suc, ◌*◌, ◌-◌, ◌/◌, ◌%◌, ◌^◌, ◌<◌, ◌≤◌, ◌≡◌, refl, ap, ◌∙◌, arith, ltb, Bool-cases, inl,
  inr,
}
use semiconductor_agent_know.Doubles.{one, nearest, rounded, quotient, difference, literal}

-- The rounding without fuel: below `2 ** 53` to the nearest number, and else the double of the
-- rounded half.
pub data Rounds : ℕ → ℕ → ℕ → Type 0 where
  unit_places : {a b : ℕ} → a < 9007199254740992 * b → Rounds a b (nearest (a / b) (a % b) b)
  halved : {a b r : ℕ} → 9007199254740992 * b ≤ a → Rounds a (2 * b) r → Rounds a b (2 * r)

doublings : ℕ → ℕ → ℕ
doublings zero b = b
doublings (suc n) b = doublings n (2 * b)

rounded-Rounds :
    (fuel a b : ℕ) → a < 9007199254740992 * doublings fuel b → Rounds a b (rounded fuel a b)
unfolding rounded doublings
rounded-Rounds zero a b h = Rounds.unit_places h
rounded-Rounds (suc fuel) a b h = elim (Bool-cases (ltb a (9007199254740992 * b))) [
  | inl less ↦ rw (rounded, less) (Rounds.unit_places (ground (arith, less)))
  | inr more ↦
      rw (rounded, more) (Rounds.halved (ground (arith, more)) (rounded-Rounds fuel a (2 * b) h))
]

doublings-* : (n c b : ℕ) → doublings n (c * b) ≡ doublings n c * b
unfolding doublings
doublings-* zero c b = refl
doublings-* (suc n) c b =
    let e : 2 * (c * b) ≡ (2 * c) * b = omega arith in ap (doublings n) e ∙ doublings-* n (2 * c) b

far : doublings 1022 1 ≡ 2 ^ 1022
unfolding doublings
far = refl

far_difference : doublings 2045 1 ≡ 2 ^ 2045
unfolding doublings
far_difference = refl

pub quotient-Rounds : (x y : ℕ) → x ≤ y → 1 ≤ y → Rounds (one * x) y (quotient x y)
unfolding quotient one
quotient-Rounds x y h p =
    let e : doublings 1022 (1 * y) ≡ 2 ^ 1022 * y = doublings-* 1022 1 y ∙ ap (λ n. n * y) far in
    let i : y ≡ 1 * y = omega arith in
    rounded-Rounds 1022 (one * x) y (omega (arith, h, p, e, ap (doublings 1022) i))

-- A difference of two `float`s needs no more than 2045 halvings, as the largest is below 2 to the
-- power of 1024.
pub difference-Rounds : (x y : ℕ) → x < 2 ^ 2098 → Rounds (x - y) 1 (difference x y)
unfolding difference
difference-Rounds x y h = rounded-Rounds 2045 (x - y) 1 (omega (arith, h, far_difference))

pub literal-Rounds : (n m : ℕ) → n ≤ m → 1 ≤ m → Rounds (one * n) m (literal n m)
unfolding literal quotient
literal-Rounds n m = quotient-Rounds n m
