-- ===== src/Doubles.antt =====
-- The arithmetic of `float`s that are not negative, in the units of the least positive one: the
-- double `x` is the number `x * 2 ** 1074`. Numbers too large for a double are left out.
pub mod Fuel
use semiconductor_agent_know.Base.{
  ℕ, zero, suc, ◌+◌, ◌-◌, ◌*◌, ◌/◌, ◌%◌, ◌^◌, ◌<◌, ◌≤◌, ◌≡◌, refl, ap, arith, ltb, eqb, true, false,
  Bool-cases, inl, inr, if◌then◌else◌,
}

-- `1.0`
unfoldable pub one : ℕ
one = 2 ^ 1074

-- The number nearest to a quotient by its whole part and its remainder, the even one of two.
unfoldable pub nearest : ℕ → ℕ → ℕ → ℕ
nearest q r b =
    if ltb (2 * r) b then q else if ltb b (2 * r) then q + 1 else if eqb (q % 2) 0 then q else q + 1

-- The double nearest to `a / b`: 53 significant bits, and the even one of two. The fuel is the
-- number of times that the quotient may be halved until it is below `2 ** 53`.
unfoldable pub rounded : ℕ → ℕ → ℕ → ℕ
unfolding nearest
rounded zero a b = nearest (a / b) (a % b) b
rounded (suc fuel) a b =
    let half = rounded fuel a (2 * b) in
    if ltb a (9007199254740992 * b) then nearest (a / b) (a % b) b else 2 * half

-- `x / y` for `x` at most `y`, which needs no more than 1022 halvings
unfoldable pub quotient : ℕ → ℕ → ℕ
unfolding one rounded
quotient x y = rounded 1022 (one * x) y

-- `x - y`, or 0 where it is below 0
unfoldable pub difference : ℕ → ℕ → ℕ
unfolding rounded
difference x y = rounded 2045 (x - y) 1

-- The double of a literal `n / m` that is at most 1.
unfoldable pub literal : ℕ → ℕ → ℕ
unfolding one rounded
literal n m = rounded 1022 (one * n) m
