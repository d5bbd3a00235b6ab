-- ===== src/Base/Dict.antt =====
-- A Python dict as the list of its items, in insertion order.
use semiconductor_agent_know.Base.{
  Bool-cases, inl, inr, ◌≡◌, refl, Option, none, some, List, [], ◌∷◌, arith, Key, ◌==◌, ==_refl,
  false, if◌then◌else◌, ◌⊎◌, ◌∙◌, sym,
}

abbrev pub Dict {ℓ κ} : Type ℓ → Type κ → Type (ℓ ⊔ κ)
Dict K V = List (K × V)

-- `d.values()`
abbrev pub values {ℓ κ} : {K : Type ℓ} {V : Type κ} → Dict K V → List V
values [] = []
values ((k, v) ∷ d) = v ∷ values d

-- A write to the value of every item, which is how a loop over `d.values()` mutates the objects.
abbrev pub map_values {ℓ κ} : {K : Type ℓ} {V : Type κ} → (V → V) → Dict K V → Dict K V
map_values f [] = []
map_values f ((k, v) ∷ d) = (k, f v) ∷ map_values f d

module _ {ℓ κ} {K : Type ℓ} {V : Type κ} ⦃e : Key K⦄ where
  -- `d.get(k)`
  unfoldable pub lookup : K → Dict K V → Option V
  lookup k [] = none
  lookup k ((j, v) ∷ d) = if j == k then some v else lookup k d

  -- `d[k] = v`
  unfoldable pub insert : K → V → Dict K V → Dict K V
  insert k v [] = (k, v) ∷ []
  insert k v ((j, w) ∷ d) = if j == k then (j, v) ∷ d else (j, w) ∷ insert k v d

  -- `d.pop(k, None)`
  unfoldable pub erase : K → Dict K V → Dict K V
  erase k [] = []
  erase k ((j, w) ∷ d) = let rest = erase k d in if j == k then rest else (j, w) ∷ rest

  pub lookup-empty : (k : K) → lookup k [] ≡ none
  unfolding lookup
  lookup-empty k = refl

  pub lookup-insert :
      (k j : K) (v : V) (d : Dict K V)
      → lookup j (insert k v d) ≡ (if k == j then some v else lookup j d)
  unfolding lookup insert
  lookup-insert k j v [] = refl
  lookup-insert k j v ((i, w) ∷ d) =
      ground (arith, e.is_same_iff k j, e.is_same_iff i k, e.is_same_iff i j, lookup-insert k j v d)

  pub lookup-erase :
      (k j : K) (d : Dict K V) → lookup j (erase k d) ≡ (if k == j then none else lookup j d)
  unfolding lookup erase
  lookup-erase k j [] = ground arith
  lookup-erase k j ((i, w) ∷ d) =
      ground (arith, lookup-erase k j d, e.is_same_iff i k, e.is_same_iff i j, e.is_same_iff k j)

  pub lookup-insert_self : (k : K) (v : V) (d : Dict K V) → lookup k (insert k v d) ≡ some v
  lookup-insert_self k v d = rw (lookup-insert, ==_refl)

  pub lookup-insert_ne :
      (k j : K) (v : V) (d : Dict K V) → (k == j) ≡ false → lookup j (insert k v d) ≡ lookup j d
  lookup-insert_ne k j v d h = rw (lookup-insert, h)

  -- What is found after a write is what was written, or was there before under another key.
  pub insert-found :
      (k j : K) {v w : V} (d : Dict K V)
      → lookup j (insert k v d) ≡ some w
      → ((k ≡ j) × (v ≡ w)) ⊎ (((k == j) ≡ false) × (lookup j d ≡ some w))
  insert-found k j {v} {w} d h =
      let r : (if k == j then some v else lookup j d) ≡ some w = sym (lookup-insert k j v d) ∙ h in
      ground (arith, e.is_same_iff k j)

  -- After a write, an item that was there is found again, or it is the one written over.
  pub lookup-kept :
      (k j : K) {v w : V} (d : Dict K V)
      → lookup j d ≡ some w
      → ((k ≡ j) × (lookup j (insert k v d) ≡ some v)) ⊎ (lookup j (insert k v d) ≡ some w)
  lookup-kept k j {v} {w} d h = ground (arith, e.is_same_iff k j, lookup-insert k j v d)

  pub lookup-map_values :
      (f : V → V) (k : K) (d : Dict K V) {w : V}
      → lookup k (map_values f d) ≡ some w
      → (v : V) × (lookup k d ≡ some v) × (w ≡ f v)
  unfolding lookup
  lookup-map_values f k [] h = ground arith
  lookup-map_values f k ((j, v) ∷ d) {w} h = elim (Bool-cases (j == k)) [
    | inl e ↦ (v, rw e refl, ground arith)
    | inr e ↦ let (u, p, q) = lookup-map_values f k d (ground arith) in (u, rw e p, q)
  ]
