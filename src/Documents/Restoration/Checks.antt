-- ===== src/Documents/Restoration/Checks.antt =====
-- What a bundle that passes `_validate_restore_bundle` is known to satisfy.
use semiconductor_agent_know.Base.{
  ℕ, ◌≤◌, String, ◌≡◌, refl, ◌↔◌, false, Option, none, some, List, [], ◌∷◌, arith, ==_iff, All,
  is_empty, string_eq, option_eq, Option-cases, inl, inr,
}
use semiconductor_agent_know.Base.Result.{ok, Result-cases}
use semiconductor_agent_know.Documents.Kinds.{DocumentLifecycle}
use semiconductor_agent_know.Documents.Model.{ObjectRef, SourceManifest}
use semiconductor_agent_know.Documents.Codes.{Code}
use semiconductor_agent_know.Documents.Store.{Store}
use semiconductor_agent_know.Documents.Store.Access.{
  NotExpired, expired_by-NotExpired, NotExpired-expired_by,
}
use semiconductor_agent_know.Documents.Governance.{validate_publication_governance}
use semiconductor_agent_know.Documents.Governance.Gate.{
  Publishable, validate_publication_governance_iff,
}
use semiconductor_agent_know.Documents.Repository.{RevisionBundle}
use semiconductor_agent_know.Documents.Service.{Services}
use semiconductor_agent_know.Documents.Restoration.{
  object_fault, objects_fault, references, validate_objects, manifest_of, validate_restore_bundle,
}

module _ {V E : Type 0} (env : Services V E) where
  -- The object is there, and its content has the hash.
  abbrev pub Intact : ObjectRef → String → Type 0
  Intact ref hash =
      (content : List ℕ) × (env.load_object ref ≡ ok content) × (env.sha256 content ≡ hash)

  abbrev pub IsRetained : ObjectRef → Type 0
  IsRetained ref = Intact ref ref.sha256

  object_fault→Intact : (ref : ObjectRef) → object_fault env ref ≡ none → IsRetained ref
  unfolding object_fault
  object_fault→Intact ref h = elim (Result-cases (env.load_object ref)) [
    | inl (content, e) ↦ (content, e, ground (arith, ==_iff (env.sha256 content) ref.sha256))
    | inr (w, e) ↦ ground arith
  ]

  Intact→object_fault : (ref : ObjectRef) → IsRetained ref → object_fault env ref ≡ none
  unfolding object_fault
  Intact→object_fault ref (content, e, p) = ground (arith, ==_iff (env.sha256 content) ref.sha256)

  objects_fault→All : (refs : List ObjectRef) → objects_fault env refs ≡ none → All IsRetained refs
  unfolding objects_fault
  objects_fault→All [] h = tt
  objects_fault→All (ref ∷ refs) h = elim (Option-cases (object_fault env ref)) [
    | inl e ↦ (object_fault→Intact ref e, objects_fault→All refs (ground arith))
    | inr (c, e) ↦ ground arith
  ]

  All→objects_fault : (refs : List ObjectRef) → All IsRetained refs → objects_fault env refs ≡ none
  unfolding objects_fault
  All→objects_fault [] h = refl
  All→objects_fault (ref ∷ refs) h =
      ground (arith, Intact→object_fault ref h.0, All→objects_fault refs h.1)

  -- All that a restoration asks of the bundle, as a statement with no order of tests.
  pub record Restorable (now : ℕ) (b : RevisionBundle) (target : Option String) (s : Store)
      : Type 0 where
    pub withdrawn : b.document.lifecycle ≡ DocumentLifecycle.withdrawn
    pub effective : b.document.effective_at ≤ now
    pub current : NotExpired now b.document.expires_at
    pub chunked : is_empty b.chunks ≡ false
    pub active_index : target ≡ some env.milvus_index_version
    pub publishable :
        (m : SourceManifest) × (manifest_of env b.document s ≡ some m)
        × Publishable b.document b.chunks b.images b.tables m
    pub retained : All IsRetained (references env b)
    pub source : Intact b.document.source_ref b.document.source_hash

  module _ (now : ℕ) (b : RevisionBundle) (target : Option String) (s : Store) where
    abbrev gate : Option Code
    gate =
        validate_publication_governance b.document b.chunks b.images b.tables
          (manifest_of env b.document s)

    validate_objects→ :
        validate_objects env b ≡ ok tt
        → All IsRetained (references env b) × Intact b.document.source_ref b.document.source_hash
    unfolding validate_objects
    validate_objects→ h = elim (Result-cases (env.load_object b.document.source_ref)) [
      | inl (content, e) ↦ (
        objects_fault→All (references env b) (ground arith),
        (content, e, ground (arith, ==_iff (env.sha256 content) b.document.source_hash)),
      )
      | inr (w, e) ↦ ground arith
    ]

    →validate_objects :
        All IsRetained (references env b)
        → Intact b.document.source_ref b.document.source_hash
        → validate_objects env b ≡ ok tt
    unfolding validate_objects
    →validate_objects r (content, e, p) = ground (
      arith,
      All→objects_fault (references env b) r,
      ==_iff (env.sha256 content) b.document.source_hash,
    )

    -- The checks raise nothing exactly when the revision is withdrawn, approved, in effect, not
    -- expired and has chunks, the target is the active index version, the publication gate is
    -- passed, and every retained object is there with its hash, the source with the document's.
    pub validate_restore_bundle_iff :
        (validate_restore_bundle env now b target s ≡ ok tt) ↔ Restorable now b target s
    unfolding validate_restore_bundle
    validate_restore_bundle_iff = (
      λ h.
          let g : gate ≡ none = ground arith in
          let (r, i) = validate_objects→ (ground arith) in
          record {
            withdrawn = ground arith;
            effective = ground arith;
            current = expired_by-NotExpired now b.document.expires_at (ground arith);
            chunked = ground arith;
            active_index = ground (arith, ==_iff target (some env.milvus_index_version));
            publishable =
                (validate_publication_governance_iff b.document b.chunks b.images b.tables
                    (manifest_of env b.document s)).0
                  g;
            retained = r;
            source = i;
          },
      λ r.
          let (m, e, p) = r.publishable in
          let g : gate ≡ none =
            (validate_publication_governance_iff b.document b.chunks b.images b.tables
                (manifest_of env b.document s)).1
              (m, e, p) in
          ground (
            arith,
            g,
            p.approved,
            NotExpired-expired_by now b.document.expires_at r.current,
            ==_iff target (some env.milvus_index_version),
            →validate_objects r.retained r.source,
          ),
    )
