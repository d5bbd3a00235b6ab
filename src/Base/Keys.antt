-- ===== src/Base/Keys.antt =====
-- Equality tests of dictionary keys, as an interface.
use Prim.Native.String.{String}
use mathlib.Core.Path.{◌≡◌, refl}
use mathlib.Core.Logic.{◌↔◌}
use mathlib.Core.Bool.{Bool, true, false, ◌&&◌}
use mathlib.Core.Option.{Option, none, some}
use native.Mathlib.Omega.{arith}
use text.Mathlib.Text.{◌==◌ as str_eq}
use text.Mathlib.TextEquality.{eq_iff}

pub record Key {ℓ} (A : Type ℓ) : Type ℓ where
  pub is_same : A → A → Bool
  pub is_same_iff : (a b : A) → (is_same a b ≡ true) ↔ (a ≡ b)

infix 50 ◌==◌
abbrev pub ◌==◌ {ℓ} : {A : Type ℓ} ⦃e : Key A⦄ → A → A → Bool
◌==◌ ⦃e⦄ = e.is_same

instance abbrev pub string_eq : Key String
string_eq = record { is_same = str_eq; is_same_iff = eq_iff }

pub ==_iff {ℓ} : {A : Type ℓ} ⦃e : Key A⦄ (a b : A) → ((a == b) ≡ true) ↔ (a ≡ b)
==_iff ⦃e⦄ a b = e.is_same_iff a b

pub ==_refl {ℓ} : {A : Type ℓ} ⦃e : Key A⦄ (a : A) → (a == a) ≡ true
==_refl ⦃e⦄ a = (e.is_same_iff a a).1 refl

module _ {ℓ κ} {A : Type ℓ} {B : Type κ} ⦃e : Key A⦄ ⦃f : Key B⦄ where
  abbrev pair_same : A × B → A × B → Bool
  pair_same (a, b) (c, d) = (a == c) && (b == d)

  pub pair_same_iff : (p q : A × B) → (pair_same p q ≡ true) ↔ (p ≡ q)
  pair_same_iff (a, b) (c, d) = ground (arith, e.is_same_iff a c, f.is_same_iff b d)

  instance abbrev pub pair_eq : Key (A × B)
  pair_eq = record { is_same = pair_same; is_same_iff = pair_same_iff }

module _ {ℓ} {A : Type ℓ} ⦃e : Key A⦄ where
  abbrev option_same : Option A → Option A → Bool
  option_same none none = true
  option_same (some a) (some b) = a == b
  option_same _ _ = false

  pub option_same_iff : (p q : Option A) → (option_same p q ≡ true) ↔ (p ≡ q)
  option_same_iff none none = ground arith
  option_same_iff none (some b) = ground arith
  option_same_iff (some a) none = ground arith
  option_same_iff (some a) (some b) = ground (arith, e.is_same_iff a b)

  instance abbrev pub option_eq : Key (Option A)
  option_eq = record { is_same = option_same; is_same_iff = option_same_iff }
