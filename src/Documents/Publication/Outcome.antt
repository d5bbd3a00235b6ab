-- ===== src/Documents/Publication/Outcome.antt =====
-- What the publication part of the store keeps and writes.
use semiconductor_agent_know.Base.{
  String, Bool, ◌≡◌, some, arith, ==_iff, Option-cases, inl, inr, string_eq, pair_eq,
}
use semiconductor_agent_know.Base.Dict.{lookup, lookup-insert}
use semiconductor_agent_know.Documents.Kinds.{DocumentLifecycle}
use semiconductor_agent_know.Documents.Model.{DocumentRevision, SourceManifest}
use semiconductor_agent_know.Documents.Repository.Consistency.{
  Consistent, set_revision-Consistent, publish_records-Consistent,
}
use semiconductor_agent_know.Documents.Publication.{
  Shelf, register_source_manifest, publish_document, finalize_inactive_document,
}

-- A manifest version that is registered stays as it is, whatever is registered later.
pub register_source_manifest_keeps :
    (same : SourceManifest → SourceManifest → Bool) (m : SourceManifest) (s : Shelf)
    (source_id version : String) {old : SourceManifest}
    → lookup (source_id, version) s.store.source_manifests ≡ some old
    → lookup (source_id, version) (register_source_manifest same m s).1.store.source_manifests
      ≡ some old
unfolding register_source_manifest
register_source_manifest_keeps same m s source_id version {old} h =
    let key : String × String = (m.source_id, m.manifest_version) in
    elim (Option-cases (lookup key s.store.source_manifests)) [
      | inl new ↦ ground (
        arith,
        lookup-insert key (source_id, version) m s.store.source_manifests,
        ==_iff m.source_id source_id,
        ==_iff m.manifest_version version,
      )
      | inr (existing, f) ↦ ground arith
    ]

-- If every chunk, image and table has the lifecycle of its document, then so it is after a
-- publication and after a revision was finalized, also when those refuse.
pub publish_document-Consistent :
    (doc : DocumentRevision) (d r : String) (l : DocumentLifecycle) (s : Shelf)
    → Consistent s.store
    → Consistent (publish_document doc s).1.store
      × Consistent (finalize_inactive_document d r l s).1.store
unfolding publish_document finalize_inactive_document
publish_document-Consistent doc d r l s c = (
  elim (Option-cases (lookup (doc.document_id, doc.revision) s.store.documents)) [
    | inl missing ↦ rw (publish_document, missing) c
    | inr (stored, f) ↦
        rw (publish_document, f)
          (publish_records-Consistent s.store stored doc.document_id doc.revision c
            doc.index_version)
  ],
  elim (Option-cases (lookup (d, r) s.store.documents)) [
    | inl missing ↦ rw (finalize_inactive_document, missing) c
    | inr (stored, f) ↦
        rw (finalize_inactive_document, f) (set_revision-Consistent s.store stored d r c l)
  ],
)
