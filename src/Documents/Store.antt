-- ===== src/Documents/Store.antt =====
-- The document part of `DemoStore` (semikb/storage/memory.py): which chunks an actor may retrieve,
-- and the transitions that write the lifecycle of a revision and of its children.
pub mod Access
use semiconductor_agent_know.Base.{
  ℕ, String, Bool, true, false, not, ◌&&◌, ◌||◌, Option, none, some, List, ltb, leb, ◌==◌, given,
  contains, is_empty, filter, if◌then◌else◌, string_eq, pair_eq,
}
use semiconductor_agent_know.Base.Dict.{Dict, values, map_values, insert}
use semiconductor_agent_know.Documents.Kinds.{
  ApprovalStatus, DocumentLifecycle, approval_eq, lifecycle_eq,
}
use semiconductor_agent_know.Documents.Model.{
  ActorScope, DocumentRevision, Chunk, ImageAsset, TableAsset, SourceManifest,
}

pub record Store : Type 0 where
  pub documents : Dict (String × String) DocumentRevision
  pub chunks : Dict String Chunk
  pub images : Dict String ImageAsset
  pub tables : Dict String TableAsset
  pub source_manifests : Dict (String × String) SourceManifest

-- `key in keys` where the key may be `None`, which no list of texts holds.
abbrev pub holds : List String → Option String → Bool
holds keys none = false
holds keys (some k) = contains keys k

-- `value and allowed and value not in allowed`
abbrev pub excludes : List String → Option String → Bool
excludes allowed value = given value && (not (is_empty allowed) && not (holds allowed value))

abbrev pub expired_by : ℕ → Option ℕ → Bool
expired_by now none = false
expired_by now (some t) = leb t now

unfoldable pub is_accessible : Chunk → ActorScope → ℕ → Bool
is_accessible c actor now =
    if not (c.lifecycle == DocumentLifecycle.published)
    then false
    else if not (c.approval_status == ApprovalStatus.approved)
    then false
    else if ltb now c.effective_at || expired_by now c.expires_at
    then false
    else if contains actor.roles "admin"
    then true
    else if not (holds actor.access_scope_keys c.access_scope_key)
    then false
    else if excludes actor.fabs c.fab
    then false
    else if excludes actor.products c.product
    then false
    else not (excludes actor.tool_ids c.tool_id)

unfoldable pub list_published_chunks : Store → ActorScope → ℕ → List Chunk
list_published_chunks s actor now = filter (λ c. is_accessible c actor now) (values s.chunks)

-- `item.document_id == document_id and item.revision == revision`
abbrev pub belongs : String → String → String → String → Bool
belongs document_id revision d r = (d == document_id) && (r == revision)

abbrev pub set_chunk : String → String → DocumentLifecycle → Chunk → Chunk
set_chunk d r l c = if belongs d r c.document_id c.revision then record c { lifecycle = l } else c

abbrev pub publish_chunk : String → String → String → Chunk → Chunk
publish_chunk d r version c =
    if belongs d r c.document_id c.revision
    then record c { lifecycle = DocumentLifecycle.published; index_version = version }
    else c

abbrev pub set_image : String → String → DocumentLifecycle → ImageAsset → ImageAsset
set_image d r l i = if belongs d r i.document_id i.revision then record i { lifecycle = l } else i

abbrev pub set_table : String → String → DocumentLifecycle → TableAsset → TableAsset
set_table d r l t = if belongs d r t.document_id t.revision then record t { lifecycle = l } else t

-- A write of one lifecycle to the document and to every record that belongs to the revision.
unfoldable pub set_revision : String → String → DocumentRevision → DocumentLifecycle → Store → Store
set_revision d r doc l s = record s {
  documents = insert (d, r) (record doc { lifecycle = l }) s.documents;
  chunks = map_values (set_chunk d r l) s.chunks;
  images = map_values (set_image d r l) s.images;
  tables = map_values (set_table d r l) s.tables;
}

-- The writes of `publish_revision`: the chunks get the target index version as well.
unfoldable pub publish_records : String → String → DocumentRevision → String → Store → Store
publish_records d r doc version s = record s {
  documents =
      insert (d, r)
        (record doc { lifecycle = DocumentLifecycle.published; index_version = version })
        s.documents;
  chunks = map_values (publish_chunk d r version) s.chunks;
  images = map_values (set_image d r DocumentLifecycle.published) s.images;
  tables = map_values (set_table d r DocumentLifecycle.published) s.tables;
}
