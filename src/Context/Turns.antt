-- ===== src/Context/Turns.antt =====
-- The numbering of messages (`normalized_messages` of semikb/agent_runtime/context.py): a message
-- keeps its turn number if it is the first with it, and gets a free one if not.
use mathlib.Core.List.{Perm}
use mathlib.Core.List.Perm
use semiconductor_agent_know.Base.{
  ℕ, zero, suc, ◌≤◌, ◌<◌, max, Bool, true, false, ◌≡◌, refl, ap, ◌∙◌, inl, inr, Option, none, some,
  List, [], ◌∷◌, map, ◌⊎◌, length, All, arith, Bool-cases, Option-cases, ltb, eqb, if◌then◌else◌,
}
use semiconductor_agent_know.Conversations.Model.{ChatMessage}

abbrev pub has : ℕ → List ℕ → Bool
has n [] = false
has n (m ∷ ms) = if eqb m n then true else has n ms

-- `while next_fallback in used: next_fallback += 1`, on the number of used ones and one more.
unfoldable pub free_from : ℕ → List ℕ → ℕ → ℕ
free_from zero used n = n
free_from (suc fuel) used n =
    let next = free_from fuel used (suc n) in if has n used then next else n

-- The number of a message: its own if that is unused.
abbrev pub own : Option ℕ → List ℕ → Option ℕ
own none used = none
own (some n) used = if has n used then none else some n

-- The pass over the messages, with the used numbers and the next free one.
unfoldable pub number_messages : List ℕ → ℕ → List ChatMessage → List (ℕ × ChatMessage)
unfolding free_from
number_messages used next [] = []
number_messages used next (m ∷ ms) = elim (own m.turn_seq used) [
  | some n ↦ (n, m) ∷ number_messages (n ∷ used) (max next (suc n)) ms
  | none ↦
      let n = free_from (suc (length used)) used next in
      (n, m) ∷ number_messages (n ∷ used) (suc n) ms
]

-- The sort by number; the numbers are distinct, so time and id never decide.
abbrev pub insert_turn : ℕ × ChatMessage → List (ℕ × ChatMessage) → List (ℕ × ChatMessage)
insert_turn x [] = x ∷ []
insert_turn x (y ∷ ys) = if ltb x.0 y.0 then x ∷ y ∷ ys else y ∷ insert_turn x ys

abbrev pub sort_turns : List (ℕ × ChatMessage) → List (ℕ × ChatMessage)
sort_turns [] = []
sort_turns (x ∷ xs) = insert_turn x (sort_turns xs)

unfoldable pub normalized_messages : List ChatMessage → List (ℕ × ChatMessage)
unfolding number_messages
normalized_messages messages = sort_turns (number_messages [] 1 messages)

-- The numbers are below a bound.
abbrev Below : ℕ → List ℕ → Type 0
Below n used = All (λ m. m < n) used

Below-has : (n : ℕ) (used : List ℕ) → Below n used → has n used ≡ false
Below-has n [] h = refl
Below-has n (m ∷ ms) h = ground (arith, Below-has n ms h.1)

Below-weaken : (n k : ℕ) (used : List ℕ) → n ≤ k → Below n used → Below k used
Below-weaken n k [] l h = tt
Below-weaken n k (m ∷ ms) l h = (omega (arith, h.0), Below-weaken n k ms l h.1)

-- The loop never turns: the next number is free already.
free_from-next : (fuel : ℕ) (used : List ℕ) (n : ℕ) → Below n used → free_from (suc fuel) used n ≡ n
unfolding free_from
free_from-next fuel used n h = rw (Below-has n used h) refl

-- No number comes twice, and none is used already.
abbrev pub Distinct : List ℕ → List (ℕ × ChatMessage) → Type 0
Distinct used [] = Unit
Distinct used (x ∷ xs) = (has x.0 used ≡ false) × Distinct (x.0 ∷ used) xs

own_unused : (o : Option ℕ) (used : List ℕ) {n : ℕ} → own o used ≡ some n → has n used ≡ false
own_unused none used h = ground arith
own_unused (some k) used h = elim (Bool-cases (has k used)) [
  | inl e ↦ ground arith
  | inr e ↦ ground arith
]

number_messages-none : (used : List ℕ) (next : ℕ) → number_messages used next [] ≡ []
unfolding number_messages
number_messages-none used next = refl

-- The two ways of a step of the pass.
module _ (used : List ℕ) (next : ℕ) (m : ChatMessage) (ms : List ChatMessage) where
  number_messages-own :
      {n : ℕ}
      → own m.turn_seq used ≡ some n
      → number_messages used next (m ∷ ms)
        ≡ (n, m) ∷ number_messages (n ∷ used) (max next (suc n)) ms
  unfolding number_messages
  number_messages-own e = rw (number_messages, e) refl

  number_messages-next :
      Below next used
      → own m.turn_seq used ≡ none
      → number_messages used next (m ∷ ms) ≡ (next, m) ∷ number_messages (next ∷ used) (suc next) ms
  unfolding number_messages
  number_messages-next h e = rw (number_messages, e, free_from-next (length used) used next h) refl

number_messages-Distinct :
    (used : List ℕ) (next : ℕ) (ms : List ChatMessage)
    → Below next used
    → Distinct used (number_messages used next ms)
number_messages-Distinct used next [] h = rw (number_messages-none used next) tt
number_messages-Distinct used next (m ∷ ms) h = elim (Option-cases (own m.turn_seq used)) [
  | inr (n, e) ↦ rw (number_messages-own used next m ms e) (
    own_unused m.turn_seq used e,
    number_messages-Distinct (n ∷ used) (max next (suc n)) ms
        (omega arith, Below-weaken next (max next (suc n)) used (omega arith) h),
  )
  | inl e ↦ rw (number_messages-next used next m ms h e) (
    Below-has next used h,
    number_messages-Distinct (next ∷ used) (suc next) ms
        (omega arith, Below-weaken next (suc next) used (omega arith) h),
  )
]

-- Another number than that of each message.
abbrev Fresh : ℕ → List (ℕ × ChatMessage) → Type 0
Fresh n xs = All (λ (x : ℕ × ChatMessage). eqb n x.0 ≡ false) xs

has_other : (n k : ℕ) (used : List ℕ) → has n used ≡ true → has k used ≡ false → eqb n k ≡ false
has_other n k used h g = elim (Bool-cases (eqb n k)) [
  | inr ne ↦ ne
  | inl e ↦ let p : n ≡ k = ground arith in ground (arith, ap (λ i. has i used) p, h, g)
]

Distinct-Fresh :
    (n : ℕ) (used : List ℕ) (xs : List (ℕ × ChatMessage))
    → has n used ≡ true
    → Distinct used xs
    → Fresh n xs
Distinct-Fresh n used [] h d = tt
Distinct-Fresh n used (x ∷ xs) h (p, d) =
    (has_other n x.0 used h p, Distinct-Fresh n (x.0 ∷ used) xs (ground (arith, h)) d)

-- The numbers grow strictly, from a bound on.
abbrev pub Growing : ℕ → List (ℕ × ChatMessage) → Type 0
Growing n [] = Unit
Growing n (x ∷ xs) = (n ≤ x.0) × Growing (suc x.0) xs

insert_turn-Growing :
    (n : ℕ) (x : ℕ × ChatMessage) (ys : List (ℕ × ChatMessage))
    → n ≤ x.0
    → Fresh x.0 ys
    → Growing n ys
    → Growing n (insert_turn x ys)
insert_turn-Growing n x [] h f g = (h, tt)
insert_turn-Growing n x (y ∷ ys) h (ne, f) (l, g) = elim (Bool-cases (ltb x.0 y.0)) [
  | inl less ↦ rw less (h, (ground arith, g))
  | inr more ↦ rw more (l, insert_turn-Growing (suc y.0) x ys (ground arith) f g)
]

insert_turn-All :
    (P : ℕ × ChatMessage → Type 0) (x : ℕ × ChatMessage) (ys : List (ℕ × ChatMessage))
    → P x
    → All P ys
    → All P (insert_turn x ys)
insert_turn-All P x [] h f = (h, tt)
insert_turn-All P x (y ∷ ys) h (p, f) = elim (Bool-cases (ltb x.0 y.0)) [
  | inl less ↦ rw less (h, (p, f))
  | inr more ↦ rw more (p, insert_turn-All P x ys h f)
]

sort_turns-All :
    (P : ℕ × ChatMessage → Type 0) (xs : List (ℕ × ChatMessage)) → All P xs → All P (sort_turns xs)
sort_turns-All P [] f = tt
sort_turns-All P (x ∷ xs) (h, f) = insert_turn-All P x (sort_turns xs) h (sort_turns-All P xs f)

sort_turns-Growing :
    (used : List ℕ) (xs : List (ℕ × ChatMessage)) → Distinct used xs → Growing 0 (sort_turns xs)
sort_turns-Growing used [] d = tt
sort_turns-Growing used (x ∷ xs) (h, d) =
    insert_turn-Growing 0 x (sort_turns xs) (omega arith)
      (sort_turns-All (λ y. eqb x.0 y.0 ≡ false) xs
        (Distinct-Fresh x.0 (x.0 ∷ used) xs (ground arith) d))
      (sort_turns-Growing (x.0 ∷ used) xs d)

-- Each message keeps its own number, if it has one that no message before it took.
abbrev pub KeepsOwn : List ℕ → List (ℕ × ChatMessage) → Type 0
KeepsOwn used [] = Unit
KeepsOwn used (x ∷ xs) =
    ((x.1.turn_seq ≡ some x.0)
      ⊎ (x.1.turn_seq ≡ none)
      ⊎ ((n : ℕ) × (x.1.turn_seq ≡ some n) × (has n used ≡ true)))
    × KeepsOwn (x.0 ∷ used) xs

own-some : (o : Option ℕ) (used : List ℕ) {n : ℕ} → own o used ≡ some n → o ≡ some n
own-some none used h = ground arith
own-some (some k) used h = elim (Bool-cases (has k used)) [
  | inl e ↦ ground arith
  | inr e ↦ ground arith
]

own-none :
    (o : Option ℕ) (used : List ℕ)
    → own o used ≡ none
    → (o ≡ none) ⊎ ((n : ℕ) × (o ≡ some n) × (has n used ≡ true))
own-none none used h = inl refl
own-none (some k) used h = elim (Bool-cases (has k used)) [
  | inl e ↦ inr (k, refl, e)
  | inr e ↦ ground arith
]

number_messages-KeepsOwn :
    (used : List ℕ) (next : ℕ) (ms : List ChatMessage)
    → Below next used
    → KeepsOwn used (number_messages used next ms)
number_messages-KeepsOwn used next [] h = rw (number_messages-none used next) tt
number_messages-KeepsOwn used next (m ∷ ms) h = elim (Option-cases (own m.turn_seq used)) [
  | inr (n, e) ↦ rw (number_messages-own used next m ms e) (
    inl (own-some m.turn_seq used e),
    number_messages-KeepsOwn (n ∷ used) (max next (suc n)) ms
        (omega arith, Below-weaken next (max next (suc n)) used (omega arith) h),
  )
  | inl e ↦ rw (number_messages-next used next m ms h e) (
    inr (own-none m.turn_seq used e),
    number_messages-KeepsOwn (next ∷ used) (suc next) ms
        (omega arith, Below-weaken next (suc next) used (omega arith) h),
  )
]

-- The pass numbers every message, in the order of the thread.
number_messages-messages :
    (used : List ℕ) (next : ℕ) (ms : List ChatMessage)
    → Below next used
    → map (λ (x : ℕ × ChatMessage). x.1) (number_messages used next ms) ≡ ms
number_messages-messages used next [] h =
    ap (map (λ (x : ℕ × ChatMessage). x.1)) (number_messages-none used next)
number_messages-messages used next (m ∷ ms) h = elim (Option-cases (own m.turn_seq used)) [
  | inr (n, e) ↦
      ap (map (λ (x : ℕ × ChatMessage). x.1)) (number_messages-own used next m ms e)
      ∙ ap (λ ys. m ∷ ys)
          (number_messages-messages (n ∷ used) (max next (suc n)) ms
            (omega arith, Below-weaken next (max next (suc n)) used (omega arith) h))
  | inl e ↦
      ap (map (λ (x : ℕ × ChatMessage). x.1)) (number_messages-next used next m ms h e)
      ∙ ap (λ ys. m ∷ ys)
          (number_messages-messages (next ∷ used) (suc next) ms
            (omega arith, Below-weaken next (suc next) used (omega arith) h))
]

insert_turn-Perm :
    (x : ℕ × ChatMessage) (ys : List (ℕ × ChatMessage)) → Perm (insert_turn x ys) (x ∷ ys)
insert_turn-Perm x [] = Perm.refl (x ∷ [])
insert_turn-Perm x (y ∷ ys) = elim (Bool-cases (ltb x.0 y.0)) [
  | inl less ↦ rw less (Perm.refl (x ∷ y ∷ ys))
  | inr more ↦ rw more (Perm.trans (Perm.cons y (insert_turn-Perm x ys)) (Perm.swap x y ys))
]

sort_turns-Perm : (xs : List (ℕ × ChatMessage)) → Perm (sort_turns xs) xs
sort_turns-Perm [] = Perm.refl []
sort_turns-Perm (x ∷ xs) =
    Perm.trans (insert_turn-Perm x (sort_turns xs)) (Perm.cons x (sort_turns-Perm xs))

-- The thread comes out as a permutation of a numbering of all its messages, in which each message
-- keeps its own turn number unless a message before it took that number, and a message without one
-- gets a number. The messages come in the order of their numbers, which grow strictly, so no two
-- share one.
pub normalized_messages_lem :
    (messages : List ChatMessage)
    → Growing 0 (normalized_messages messages)
      × (xs : List (ℕ × ChatMessage)) × (map (λ (x : ℕ × ChatMessage). x.1) xs ≡ messages)
      × KeepsOwn [] xs
      × Perm (normalized_messages messages) xs
unfolding normalized_messages
normalized_messages_lem messages = (
  sort_turns-Growing [] (number_messages [] 1 messages) (number_messages-Distinct [] 1 messages tt),
  number_messages [] 1 messages,
  number_messages-messages [] 1 messages tt,
  number_messages-KeepsOwn [] 1 messages tt,
  sort_turns-Perm (number_messages [] 1 messages),
)
