-- ===== src/Agent/Clarification/Resolved.antt =====
-- What an answer does to the keys that a frame asks for.
use semiconductor_agent_know.Base.{
  In-map_intro, String, true, false, not, Option, List, [], ◌∷◌, ◌++◌, ◌==◌, filter, contains, In,
  here, there, In-filter_intro, In-map, ◌≡◌, refl, ◌⊎◌, inl, inr, Bool-cases, string_eq, ==_iff,
}
use semiconductor_agent_know.Base.Dict.{Dict}
use semiconductor_agent_know.Agent.Model.{ConversationUnderstanding}
use semiconductor_agent_know.Agent.Frames.{
  ClarificationPendingItem, ClarificationResolvedItem, ClarificationFrame, keys_of, pending_keys,
  SignaturePayload,
}
use semiconductor_agent_know.Agent.Routing.{merged}
use semiconductor_agent_know.Agent.Clarification.{
  resolved_value, resolve_item, resolve_items, update_frame_after_answer,
}

module _ (values : Dict String String) (u : ConversationUnderstanding)
    (source : Option String) where
  abbrev pub item_for : String → ClarificationResolvedItem
  item_for key = record {
    key = key;
    value = resolved_value key values u;
    source_message_id = source;
  }

  In-append_last {ℓ} : {A : Type ℓ} {a : A} (xs : List A) → In a (xs ++ a ∷ [])
  In-append_last [] = here
  In-append_last (x ∷ xs) = there (In-append_last xs)

  In-append_left {ℓ} : {A : Type ℓ} {a : A} (xs ys : List A) → In a xs → In a (xs ++ ys)
  In-append_left [] ys m = elim m [ ]
  In-append_left (x ∷ xs) ys here = here
  In-append_left (x ∷ xs) ys (there m) = there (In-append_left xs ys m)

  -- What one key was resolved to stays, whatever key is resolved after it.
  resolve_item-keeps :
      (k key : String) (items : List ClarificationResolvedItem)
      → In (item_for k) items
      → In (item_for k) (resolve_item values u source key items)
  resolve_item-keeps k key items m = elim (Bool-cases (k == key)) [
    | inl e ↦ let same : k ≡ key = (==_iff k key).0 e in rw same (In-append_last _)
    | inr e ↦
        let test = λ (i : ClarificationResolvedItem). not (i.key == key) in
        In-append_left (filter test items) (item_for key ∷ [])
          (In-filter_intro test items m (rw e refl))
  ]

  resolve_items-keeps :
      (k : String) (ks : List String) (items : List ClarificationResolvedItem)
      → In (item_for k) items
      → In (item_for k) (resolve_items values u source ks items)
  unfolding resolve_items
  resolve_items-keeps k [] items m = m
  resolve_items-keeps k (key ∷ ks) items m =
      resolve_items-keeps k ks (resolve_item values u source key items)
        (resolve_item-keeps k key items m)

  resolve_items-In :
      {k : String} (ks : List String) (items : List ClarificationResolvedItem)
      → In k ks
      → In (item_for k) (resolve_items values u source ks items)
  unfolding resolve_items
  resolve_items-In (key ∷ ks) items here =
      resolve_items-keeps key ks (resolve_item values u source key items) (In-append_last _)
  resolve_items-In (key ∷ ks) items (there m) =
      resolve_items-In ks (resolve_item values u source key items) m
  resolve_items-In [] items m = elim m [ ]

keys_of-kept :
    (after : List String) {k : String} (items : List ClarificationPendingItem)
    → In k (keys_of items)
    → contains after k ≡ true
    → In k (keys_of (filter (λ (i : ClarificationPendingItem). contains after i.key) items))
keys_of-kept after {k} items m h =
    let key = λ (i : ClarificationPendingItem). i.key in
    let (i, n, e) = In-map key items m in
    let c : contains after i.key ≡ true = rw (← e) h in
    rw e (
      In-map_intro key (filter (λ (j : ClarificationPendingItem). contains after j.key) items)
        (In-filter_intro (λ (j : ClarificationPendingItem). contains after j.key) items n c))

-- No key is lost: after an answer each key that was asked for is still asked for, if the policy
-- still misses it, and else it is recorded as resolved, with its value in the slots and the message
-- that gave it.
pub update_frame_after_answer-keys :
    (digest : SignaturePayload → String) (f : ClarificationFrame) (u : ConversationUnderstanding)
    (pending_after : List String) (source : Option String) (classifier : String) {k : String}
    → In k (pending_keys f)
    → ((contains pending_after k ≡ true)
        × In k
            (pending_keys (update_frame_after_answer digest f u pending_after source classifier).0))
      ⊎ ((contains pending_after k ≡ false)
          × In
              (item_for (merged u.inherited_slots u.explicit_slots) u source k)
              (update_frame_after_answer digest f u pending_after source
                classifier).0.resolved_items)
unfolding update_frame_after_answer
update_frame_after_answer-keys digest f u pending_after source classifier {k} m =
    let resolved = λ (key : String). not (contains pending_after key) in
    let values = merged u.inherited_slots u.explicit_slots in
    elim (Bool-cases (contains pending_after k)) [
      | inl h ↦ inl (h, keys_of-kept pending_after f.pending_items m h)
      | inr h ↦ inr (
        h,
        resolve_items-In values u source (filter resolved (pending_keys f)) f.resolved_items
            (In-filter_intro resolved (pending_keys f) m (rw h refl)),
      )
    ]
