-- ===== src/Retrieval/Assets.antt =====
-- Who may fetch an image.
use semiconductor_agent_know.Base.{
  ℕ, ◌≤◌, ◌⊎◌, contains, String, true, some, ◌≡◌, ◌≢◌, ◌↔◌, refl, ap, sym, ◌∙◌, arith, inl, inr,
  Bool-cases, Option-cases, string_eq, pair_eq,
}
use semiconductor_agent_know.Base.Dict.{lookup, lookup-map_values}
use semiconductor_agent_know.Base.Result.{ok}
use semiconductor_agent_know.Documents.Kinds.{ApprovalStatus, DocumentLifecycle}
use semiconductor_agent_know.Documents.Model.{ActorScope, DocumentRevision, ImageAsset, ObjectRef}
use semiconductor_agent_know.Documents.Store.{
  Store, is_accessible, holds, set_revision, set_image, belongs,
}
use semiconductor_agent_know.Documents.Store.Access.{
  NotExpired, Within, Retrievable, is_accessible→Retrievable, Retrievable→is_accessible,
}
use semiconductor_agent_know.Retrieval.{probe_of, asset_access}

-- What an access that is granted has found.
asset_access-ok :
    (s : Store) (image_id : String) (actor : ActorScope) (now : ℕ) {ref : ObjectRef}
    → asset_access s image_id actor now ≡ ok ref
    → (a : ImageAsset) × (d : DocumentRevision) × (lookup image_id s.images ≡ some a)
      × (lookup (a.document_id, a.revision) s.documents ≡ some d)
      × Retrievable (probe_of a d) actor now
      × (ref ≡ a.object_ref)
unfolding asset_access
asset_access-ok s image_id actor now {ref} h = elim (Option-cases (lookup image_id s.images)) [
  | inl e ↦ absurd (ground (arith, e))
  | inr (a, e) ↦ elim (Option-cases (lookup (a.document_id, a.revision) s.documents)) [
    | inl f ↦ absurd (ground (arith, e, f))
    | inr (d, f) ↦ elim (Bool-cases (is_accessible (probe_of a d) actor now)) [
      | inr k ↦ absurd (ground (arith, e, f, k))
      | inl k ↦ (
        a,
        d,
        e,
        f,
        is_accessible→Retrievable (probe_of a d) actor now k,
        ground (arith, e, f, k),
      )
    ]
  ]
]

asset_access-granted :
    (s : Store) (image_id : String) (actor : ActorScope) (now : ℕ) (a : ImageAsset)
    (d : DocumentRevision)
    → lookup image_id s.images ≡ some a
    → lookup (a.document_id, a.revision) s.documents ≡ some d
    → Retrievable (probe_of a d) actor now
    → asset_access s image_id actor now ≡ ok a.object_ref
unfolding asset_access
asset_access-granted s image_id actor now a d e f r =
    ground (arith, e, f, Retrievable→is_accessible (probe_of a d) actor now r)

-- What the access to an image asks: of the image itself, and of the fab, product and tool of its
-- revision.
pub record Fetchable (a : ImageAsset) (d : DocumentRevision) (actor : ActorScope) (now : ℕ)
    : Type 0 where
  pub published : a.lifecycle ≡ DocumentLifecycle.published
  pub approved : a.approval_status ≡ ApprovalStatus.approved
  pub effective : a.effective_at ≤ now
  pub current : NotExpired now a.expires_at
  pub permitted :
      (contains actor.roles "admin" ≡ true)
      ⊎ ((holds actor.access_scope_keys a.access_scope_key ≡ true)
          × Within actor.fabs d.fab
          × Within actor.products d.product
          × Within actor.tool_ids d.tool_id)

Retrievable→Fetchable :
    (a : ImageAsset) (d : DocumentRevision) (actor : ActorScope) (now : ℕ)
    → Retrievable (probe_of a d) actor now
    → Fetchable a d actor now
Retrievable→Fetchable a d actor now r = record {
  published = r.published;
  approved = r.approved;
  effective = r.effective;
  current = r.current;
  permitted = r.permitted;
}

Fetchable→Retrievable :
    (a : ImageAsset) (d : DocumentRevision) (actor : ActorScope) (now : ℕ)
    → Fetchable a d actor now
    → Retrievable (probe_of a d) actor now
Fetchable→Retrievable a d actor now r = record {
  published = r.published;
  approved = r.approved;
  effective = r.effective;
  current = r.current;
  permitted = r.permitted;
}

-- An image is handed out exactly if the store knows it and its revision, and the image is itself
-- published, approved, in effect and not expired, and permitted to the actor by its own access
-- scope key and by the fab, product and tool of its revision. What is handed out is its object.
pub asset_access_iff :
    (s : Store) (image_id : String) (actor : ActorScope) (now : ℕ) (ref : ObjectRef)
    → (asset_access s image_id actor now ≡ ok ref) ↔ (
        (a : ImageAsset) × (d : DocumentRevision) × (lookup image_id s.images ≡ some a)
        × (lookup (a.document_id, a.revision) s.documents ≡ some d)
        × Fetchable a d actor now
        × (ref ≡ a.object_ref))
asset_access_iff s image_id actor now ref = (
  λ h.
      let (a, d, e, f, r, same) = asset_access-ok s image_id actor now h in
      (a, d, e, f, Retrievable→Fetchable a d actor now r, same),
  λ (a, d, e, f, r, same).
      asset_access-granted s image_id actor now a d e f (Fetchable→Retrievable a d actor now r)
      ∙ ap ok (sym same),
)

-- Right after a revision has been given a lifecycle other than published, no image of it is handed
-- out, to any actor, admins included, at any time.
pub set_revision_hides_assets :
    (s : Store) (doc : DocumentRevision) (d r : String) (l : DocumentLifecycle) (image_id : String)
    (a : ImageAsset)
    → l ≢ DocumentLifecycle.published
    → lookup image_id s.images ≡ some a
    → belongs d r a.document_id a.revision ≡ true
    → (actor : ActorScope) (now : ℕ) (ref : ObjectRef)
    → asset_access (set_revision d r doc l s) image_id actor now ≢ ok ref
unfolding set_revision
set_revision_hides_assets s doc d r l image_id a n e k actor now ref h =
    let (b, _, f, _, p, _) = asset_access-ok (set_revision d r doc l s) image_id actor now h in
    let (u, g, same) = lookup-map_values (set_image d r l) image_id s.images f in
    let old : a ≡ u = ground (arith, e, g) in
    let hidden : (set_image d r l u).lifecycle ≡ l = rw (← old) (rw k refl) in
    n (sym hidden ∙ ap (λ (x : ImageAsset). x.lifecycle) (sym same) ∙ p.published)
