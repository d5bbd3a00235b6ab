-- ===== src/Documents/Publication.antt =====
-- The publication part of `DemoStore` (semikb/storage/memory.py): registration of source manifests,
-- staging, publication, and the ways out of a publication that failed.
pub mod Outcome
use semiconductor_agent_know.Base.{
  ℕ, String, Bool, true, false, not, Option, none, some, List, [], ◌∷◌, ◌==◌, length, eqb, is_some,
  if◌then◌else◌, string_eq, pair_eq,
}
use semiconductor_agent_know.Base.Dict.{Dict, lookup, insert}
use semiconductor_agent_know.Base.Result.{Result, ok, err, Exec}
use semiconductor_agent_know.Documents.Kinds.{DocumentLifecycle}
use semiconductor_agent_know.Documents.Model.{
  DocumentRevision, Chunk, ImageAsset, TableAsset, SourceManifest,
}
use semiconductor_agent_know.Documents.Store.{Store, set_revision, publish_records}

-- The store with the releases of the index, each by its version; all of them are active.
pub record Shelf : Type 0 where
  pub store : Store
  pub index_releases : Dict String (Unit {0})

pub data ShelfError : Type 0 where
  key_error value_error : ShelfError

abbrev pub Action : Type 0 → Type 0
Action A = Exec ShelfError Shelf A

-- `same` is the comparison of two manifests by all their fields.
unfoldable pub register_source_manifest :
    (SourceManifest → SourceManifest → Bool) → SourceManifest → Action SourceManifest
register_source_manifest same m s =
    let key : String × String = (m.source_id, m.manifest_version) in
    elim (lookup key s.store.source_manifests) [
      | none ↦ (
        ok m,
        record s {
          store = record s.store { source_manifests = insert key m s.store.source_manifests };
        },
      )
      | some existing ↦
          if same existing m then (ok existing, s) else (err ShelfError.value_error, s)
    ]

abbrev pub update_all {ℓ} : {V : Type ℓ} → (V → String) → List V → Dict String V → Dict String V
update_all key [] d = d
update_all key (v ∷ vs) d = update_all key vs (insert (key v) v d)

unfoldable pub add_document :
    DocumentRevision → List Chunk → List ImageAsset → List TableAsset → Store → Store
add_document doc chunks images tables s = record s {
  documents = insert (doc.document_id, doc.revision) doc s.documents;
  chunks = update_all (λ (c : Chunk). c.chunk_id) chunks s.chunks;
  images = update_all (λ (i : ImageAsset). i.image_id) images s.images;
  tables = update_all (λ (t : TableAsset). t.table_id) tables s.tables;
}

unfoldable pub stage_document :
    {E : Type 0}
    → DocumentRevision
    → List Chunk
    → List ImageAsset
    → List E
    → List TableAsset
    → Action (Unit {0})
unfolding add_document
stage_document doc chunks images embeddings tables s =
    if eqb (length chunks) (length embeddings)
    then (ok tt, record s { store = add_document doc chunks images tables s.store })
    else (err ShelfError.value_error, s)

unfoldable pub publish_document : DocumentRevision → Action (Unit {0})
publish_document doc s = elim (lookup (doc.document_id, doc.revision) s.store.documents) [
  | none ↦ (err ShelfError.key_error, s)
  | some stored ↦ (
    ok tt,
    record s {
      store = publish_records doc.document_id doc.revision stored doc.index_version s.store;
      index_releases = insert doc.index_version tt s.index_releases;
    },
  )
]

unfoldable pub finalize_inactive_document : String → String → DocumentLifecycle → Action (Unit {0})
finalize_inactive_document document_id revision lifecycle s =
    elim (lookup (document_id, revision) s.store.documents) [
      | none ↦ (err ShelfError.key_error, s)
      | some doc ↦
          (ok tt, record s { store = set_revision document_id revision doc lifecycle s.store })
    ]

unfoldable pub compensate_document : String → String → Action (Unit {0})
unfolding finalize_inactive_document
compensate_document document_id revision s =
    if is_some (lookup (document_id, revision) s.store.documents)
    then finalize_inactive_document document_id revision DocumentLifecycle.quarantined s
    else (ok tt, s)
