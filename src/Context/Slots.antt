-- ===== src/Context/Slots.antt =====
-- What `update_active_context` does to a slot.
use semiconductor_agent_know.Base.{
  ℕ, String, Bool, true, false, ◌&&◌, ◌≡◌, refl, ap, sym, ◌∙◌, inl, inr, Option, none, some, List,
  [], ◌∷◌, In, here, there, arith, Bool-cases, Option-cases, ◌==◌, ==_iff, any, if◌then◌else◌,
  string_eq, contains-filter, is_some, All, map, filter, contains, ◌≢◌, ◌⊎◌, ◌++◌, refuted,
}
use semiconductor_agent_know.Base.Dict.{
  Dict, lookup, insert, lookup-insert_self, lookup-insert_ne, lookup-map_values, insert-found,
}
use semiconductor_agent_know.Context.{
  ContextSlot, ActiveConversationContext, SlotOperation, SlotOperationKind, Answer, changes,
  differs, constraints_of, operations_of, constraint, changed_names, is_clear, meets, invalidated,
  invalidated_if, invalidate_dependents, cleared, clear_slots, inheriting, fill, fill_slots,
  keeps_inherited, filled, context_slot_names, update_active_context,
}

-- An operation clears the slot.
abbrev pub is_cleared : List SlotOperation → String → Bool
is_cleared ops name = any (λ o. is_clear o.operation && (o.slot_name == name)) ops

module _ (now : ℕ) (message_id : String) where
  invalidated_if-valid :
      (changed : List String) (slot : ContextSlot)
      → (invalidated_if now message_id changed slot).valid ≡ true
      → (invalidated_if now message_id changed slot ≡ slot)
        × (meets changed slot.depends_on ≡ false)
  invalidated_if-valid changed slot h = ground arith

  -- A slot that is valid after the dependents were invalidated was valid before, as it is, and
  -- depends on nothing that changed.
  invalidate_dependents-valid :
      (changed : List String) (slots : Dict String ContextSlot) (name : String) {slot : ContextSlot}
      → lookup name (invalidate_dependents now message_id changed slots) ≡ some slot
      → slot.valid ≡ true
      → (lookup name slots ≡ some slot) × (meets changed slot.depends_on ≡ false)
  unfolding invalidate_dependents
  invalidate_dependents-valid changed slots name {slot} h v =
      let (old, p, e) = lookup-map_values (invalidated_if now message_id changed) name slots h in
      let (same, free) =
        invalidated_if-valid changed old (sym (ap (λ (s : ContextSlot). s.valid) e) ∙ v) in
      let q : slot ≡ old = e ∙ same in
      (p ∙ ap some (sym q), ap (λ (s : ContextSlot). meets changed s.depends_on) q ∙ free)

  cleared-lookup :
      (o : SlotOperation) (slots : Dict String ContextSlot) (name : String) (old : ContextSlot)
      → is_clear o.operation ≡ true
      → lookup o.slot_name slots ≡ some old
      → lookup name (insert o.slot_name (invalidated now message_id "user_cleared" old) slots)
        ≡ lookup name (
            if is_clear o.operation
            then cleared now message_id o.slot_name (lookup o.slot_name slots) slots
            else slots)
  cleared-lookup o slots name old c f = rw (c, f) refl

  cleared-valid :
      (o : SlotOperation) (slots : Dict String ContextSlot) (name : String) {slot : ContextSlot}
      → lookup name (
          if is_clear o.operation
          then cleared now message_id o.slot_name (lookup o.slot_name slots) slots
          else slots)
        ≡ some slot
      → slot.valid ≡ true
      → (lookup name slots ≡ some slot) × ((is_clear o.operation && (o.slot_name == name)) ≡ false)
  cleared-valid o slots name {slot} h v = elim (Bool-cases (is_clear o.operation)) [
    | inr other ↦ ground (arith, other, h)
    | inl clears ↦ elim (Option-cases (lookup o.slot_name slots)) [
      | inl missing ↦ ground (arith, clears, missing, h, ==_iff o.slot_name name)
      | inr (old, f) ↦
          elim (insert-found o.slot_name name slots
            (cleared-lookup o slots name old clears f ∙ h)) [
              | inl (_, e) ↦ ground (arith, ap (λ (s : ContextSlot). s.valid) e, v)
              | inr (ne, k) ↦ (k, ground (arith, ne))
            ]
    ]
  ]

  clear_slots-valid :
      (ops : List SlotOperation) (slots : Dict String ContextSlot) (name : String)
      {slot : ContextSlot}
      → lookup name (clear_slots now message_id ops slots) ≡ some slot
      → slot.valid ≡ true
      → (lookup name slots ≡ some slot) × (is_cleared ops name ≡ false)
  unfolding clear_slots
  clear_slots-valid [] slots name h v = (h, refl)
  clear_slots-valid (o ∷ ops) slots name h v =
      let (p, q) = clear_slots-valid ops _ name h v in
      let (p', q') = cleared-valid o slots name p v in (p', ground (arith, q, q'))

  module _ (find : String → String) (ops : List SlotOperation) where
    fill-other :
        (name other : String) (value : Option String) (slots : Dict String ContextSlot)
        → (value ≡ none) ⊎ ((name == other) ≡ false)
        → lookup other (fill now message_id find ops name value slots) ≡ lookup other slots
    fill-other name other none slots h = refl
    fill-other name other (some value) slots (inl h) = ground arith
    fill-other name other (some value) slots (inr h) = ground (
      arith,
      lookup-insert_ne name other (filled now message_id find (inheriting ops name) name value)
          slots h,
    )

    -- A round of the loop that has no value, or is of another slot.
    idle_round :
        (cs : Dict String String) (name other : String)
        → constraint cs other ≡ none
        → (constraint cs name ≡ none) ⊎ ((name == other) ≡ false)
    idle_round cs name other h = elim (Bool-cases (name == other)) [
      | inr ne ↦ inr ne
      | inl e ↦ inl (ap (constraint cs) ((==_iff name other).0 e) ∙ h)
    ]

    -- A slot that the answer gives no value for is left alone.
    fill_slots-other :
        (cs : Dict String String) (names : List String) (other : String)
        (slots : Dict String ContextSlot)
        → constraint cs other ≡ none
        → lookup other (fill_slots now message_id find ops cs names slots) ≡ lookup other slots
    unfolding fill_slots
    fill_slots-other cs [] other slots h = refl
    fill_slots-other cs (name ∷ names) other slots h =
        fill_slots-other cs names other _ h
        ∙ fill-other name other (constraint cs name) slots (idle_round cs name other h)

    kept_slot :
        (i : Option SlotOperation) (o : Option ContextSlot)
        → keeps_inherited i o ≡ true
        → (s : ContextSlot) × (o ≡ some s) × (s.valid ≡ true) × (is_some i ≡ true)
    kept_slot none o h = ground arith
    kept_slot (some x) none h = ground arith
    kept_slot (some x) (some s) h = (s, refl, h, refl)

    -- A slot that the answer gives a value for, once it has been filled.
    abbrev pub Filled : String → String → Dict String ContextSlot → Type 0
    Filled name value slots =
        (s : ContextSlot) × (lookup name slots ≡ some s)
        × (s.valid ≡ true)
        × ((s.value ≡ value) ⊎ (is_some (inheriting ops name) ≡ true))

    fill-Filled :
        (name value : String) (slots : Dict String ContextSlot)
        → Filled name value (fill now message_id find ops name (some value) slots)
    fill-Filled name value slots =
        let i = inheriting ops name in
        elim (Bool-cases (keeps_inherited i (lookup name slots))) [
          | inr fresh ↦
              let s = filled now message_id find i name value in
              rw fresh (s, lookup-insert_self name s slots, refl, inl refl)
          | inl kept ↦
              rw kept (let (s, f, v, x) = kept_slot i (lookup name slots) kept in (s, f, v, inr x))
        ]

    round_Filled :
        (cs : Dict String String) (name other value : String) (slots : Dict String ContextSlot)
        → constraint cs other ≡ some value
        → (name ≡ other) ⊎ (((name == other) ≡ false) × Filled other value slots)
        → Filled other value (fill now message_id find ops name (constraint cs name) slots)
    round_Filled cs name other value slots h (inl e) = rw (e, h) (fill-Filled other value slots)
    round_Filled cs name other value slots h (inr (ne, (s, f, v, w))) =
        (s, fill-other name other (constraint cs name) slots (inr ne) ∙ f, v, w)

    same_or_not : (name other : String) → (name ≡ other) ⊎ ((name == other) ≡ false)
    same_or_not name other = elim (Bool-cases (name == other)) [
      | inl e ↦ inl ((==_iff name other).0 e)
      | inr e ↦ inr e
    ]

    still_Filled :
        (cs : Dict String String) (names : List String) (other value : String)
        (slots : Dict String ContextSlot)
        → constraint cs other ≡ some value
        → Filled other value slots
        → Filled other value (fill_slots now message_id find ops cs names slots)
    unfolding fill_slots
    still_Filled cs [] other value slots h f = f
    still_Filled cs (name ∷ names) other value slots h f = still_Filled cs names other value _ h (
        round_Filled cs name other value slots h
          (elim (same_or_not name other) [ inl e ↦ inl e | inr ne ↦ inr (ne, f) ]))

    fill_slots-Filled :
        (cs : Dict String String) (names : List String) (other value : String)
        (slots : Dict String ContextSlot)
        → In other names
        → constraint cs other ≡ some value
        → Filled other value (fill_slots now message_id find ops cs names slots)
    unfolding fill_slots
    fill_slots-Filled cs [] other value slots i h = elim i [ ]
    fill_slots-Filled cs (name ∷ names) _ value slots here h =
        still_Filled cs names name value _ h (round_Filled cs name name value slots h (inl refl))
    fill_slots-Filled cs (name ∷ names) other value slots (there i) h =
        fill_slots-Filled cs names other value _ i h

-- The answer leaves a name as it is: no operation corrects or clears it, and it is no context slot,
-- or the answer gives no value for it, or no valid slot has another value.
abbrev pub Untouched : Answer → Dict String ContextSlot → String → Type 0
Untouched a slots name =
    All
      (λ (o : SlotOperation).
        ((o.operation ≢ SlotOperationKind.correct) × (o.operation ≢ SlotOperationKind.clear))
        ⊎ (o.slot_name ≢ name))
      (operations_of a)
    × ((contains context_slot_names name ≡ false)
        ⊎ (constraint (constraints_of a) name ≡ none)
        ⊎ (lookup name slots ≡ none)
        ⊎ ((s : ContextSlot) × (lookup name slots ≡ some s)
            × ((s.valid ≡ false) ⊎ (constraint (constraints_of a) name ≡ some s.value))))

unchanged_operations :
    (name : String) (ops : List SlotOperation)
    → contains
        (map (λ (o : SlotOperation). o.slot_name) (filter (λ o. changes o.operation) ops))
        name
      ≡ false
    → All
        (λ (o : SlotOperation).
          ((o.operation ≢ SlotOperationKind.correct) × (o.operation ≢ SlotOperationKind.clear))
          ⊎ (o.slot_name ≢ name))
        ops
unchanged_operations name [] h = tt
unchanged_operations name (o ∷ ops) h = elim (Bool-cases (changes o.operation)) [
  | inr c ↦ (
    inl (λ e. cc (c, ap changes e), λ e. cc (c, ap changes e)),
    unchanged_operations name ops (ground (arith, c)),
  )
  | inl c ↦
      let ne : (o.slot_name == name) ≡ false = ground (arith, c) in
      (
        inr (λ e. cc ((==_iff o.slot_name name).1 e, ne)),
        unchanged_operations name ops (ground (arith, c)),
      )
]

contains-both :
    (xs ys : List String) (a : String)
    → contains (xs ++ ys) a ≡ false
    → (contains xs a ≡ false) × (contains ys a ≡ false)
contains-both [] ys a h = (refl, h)
contains-both (x ∷ xs) ys a h =
    let (p, q) = contains-both xs ys a (ground arith) in (ground arith, q)

-- A slot that does not differ from what an answer gives.
same_slot :
    (o : Option ContextSlot) (given : Option String)
    → differs o given ≡ false
    → (given ≡ none)
      ⊎ (o ≡ none)
      ⊎ ((s : ContextSlot) × (o ≡ some s) × ((s.valid ≡ false) ⊎ (given ≡ some s.value)))
same_slot none given h = inr (inl refl)
same_slot (some s) none h = inl refl
same_slot (some s) (some v) h = elim (Bool-cases s.valid) [
  | inr stale ↦ inr (inr (s, refl, inl stale))
  | inl valid ↦
      let e : (s.value == v) ≡ true = ground arith in
      inr (inr (s, refl, inr (ap some (sym ((==_iff s.value v).0 e)))))
]

changed_names-Untouched :
    (a : Answer) (slots : Dict String ContextSlot) (name : String)
    → contains (changed_names (constraints_of a) (operations_of a) slots) name ≡ false
    → Untouched a slots name
unfolding changed_names
changed_names-Untouched a slots name h =
    let test : String → Bool = λ n. differs (lookup n slots) (constraint (constraints_of a) n) in
    let (p, q) = contains-both _ (filter test context_slot_names) name h in
    (
      unchanged_operations name (operations_of a) p,
      elim (Bool-cases (contains context_slot_names name)) [
        | inr other ↦ inl other
        | inl named ↦
            let e : test name ≡ false =
              refuted (test name)
                (λ y. cc (contains-filter test context_slot_names name y, named, q)) in
            inr (same_slot (lookup name slots) (constraint (constraints_of a) name) e)
      ],
    )

depends-Untouched :
    (a : Answer) (slots : Dict String ContextSlot) (names : List String)
    → meets (changed_names (constraints_of a) (operations_of a) slots) names ≡ false
    → All (Untouched a slots) names
depends-Untouched a slots [] h = tt
depends-Untouched a slots (name ∷ names) h = (
  changed_names-Untouched a slots name (ground arith),
  depends-Untouched a slots names (ground arith),
)

module _ (now : ℕ) (message_id : String) (find : String → String) (a : Answer)
    (context : ActiveConversationContext) where
  -- A slot that is valid after an answer, and that the answer gives no value for, was valid before
  -- with the same record, and was not cleared by the answer. The answer has left every name that the
  -- slot depends on as it was: no operation corrects or clears it, and it is no context slot, or is
  -- given no value, or no valid slot has another value than the one given.
  pub update_active_context-kept :
      (name : String) {slot : ContextSlot}
      → constraint (constraints_of a) name ≡ none
      → lookup name (update_active_context now message_id find a context).slots ≡ some slot
      → slot.valid ≡ true
      → (lookup name context.slots ≡ some slot)
        × All (Untouched a context.slots) slot.depends_on
        × (is_cleared (operations_of a) name ≡ false)
  unfolding update_active_context
  update_active_context-kept name {slot} c h v =
      let ops = operations_of a in
      let changed = changed_names (constraints_of a) ops context.slots in
      let before = invalidate_dependents now message_id changed context.slots in
      let left = clear_slots now message_id ops before in
      let p : lookup name left ≡ some slot =
        sym (
          fill_slots-other now message_id find ops (constraints_of a) context_slot_names name left
            c)
        ∙ h in
      let (q, free) = clear_slots-valid now message_id ops before name p v in
      let (r, apart) = invalidate_dependents-valid now message_id changed context.slots name q v in
      (r, depends-Untouched a context.slots slot.depends_on apart, free)

  -- A context slot that the answer gives a value for is valid after it, with that value unless an
  -- operation inherits the slot.
  pub update_active_context-Filled :
      (name value : String)
      → In name context_slot_names
      → constraint (constraints_of a) name ≡ some value
      → Filled now message_id find
          (operations_of a)
          name
          value
          (update_active_context now message_id find a context).slots
  unfolding update_active_context
  update_active_context-Filled name value i c =
      fill_slots-Filled now message_id find (operations_of a) (constraints_of a) context_slot_names
        name value _ i c
