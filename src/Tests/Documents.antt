-- ===== src/Tests/Documents.antt =====
-- The document lifecycle on one revision with one chunk: what is read and checked.
use semiconductor_agent_know.Base.{
  String, false, ◌≡◌, ◌≢◌, refl, ◌↔◌, ◌⊎◌, none, some, List, [], ◌∷◌, length, In, here, arith,
  string_eq, pair_eq,
}
use semiconductor_agent_know.Base.Dict.{lookup, insert, values}
use semiconductor_agent_know.Base.Result.{ok, err}
use semiconductor_agent_know.Documents.Kinds.{DocumentLifecycle}
use semiconductor_agent_know.Documents.Model.{SourceManifest, Chunk}
use semiconductor_agent_know.Documents.Codes.{Failure}
use semiconductor_agent_know.Documents.Store.{
  Store, is_accessible, set_revision, list_published_chunks, belongs,
}
use semiconductor_agent_know.Documents.Store.Access.{
  Retrievable, In-list_published_chunks, set_revision_hides,
}
use semiconductor_agent_know.Documents.Governance.{
  validate_publication_governance, validate_found, validate_manifest, validate_artifacts,
  actual_artifacts,
}
use semiconductor_agent_know.Documents.Governance.Gate.{
  Publishable, validate_publication_governance_iff,
}
use semiconductor_agent_know.Documents.Restoration.{
  validate_restore_bundle, validate_objects, manifest_of, objects_fault, object_fault,
  encode_chunks,
}
use semiconductor_agent_know.Documents.Restoration.Checks.{Restorable, validate_restore_bundle_iff}
use semiconductor_agent_know.Documents.Restoration.Encode.{
  IsRowwise, Batched, FailedBatch, encode_chunks_rows,
}
use semiconductor_agent_know.Tests.Data.{
  tool_actor, manifest, manual, step_text, shelf, bundle, services,
}

-- The gate.
validate_publication_governance_iff_example :
    (validate_publication_governance
        (manual DocumentLifecycle.withdrawn)
        (step_text DocumentLifecycle.withdrawn ∷ [])
        []
        []
        (some manifest)
      ≡ none)
    ↔ ((m : SourceManifest) × (some manifest ≡ some m)
        × Publishable
            (manual DocumentLifecycle.withdrawn)
            (step_text DocumentLifecycle.withdrawn ∷ [])
            []
            []
            m)
validate_publication_governance_iff_example =
    validate_publication_governance_iff (manual DocumentLifecycle.withdrawn)
      (step_text DocumentLifecycle.withdrawn ∷ []) [] [] (some manifest)

-- Who may retrieve the chunk.
In-list_published_chunks_example :
    In
      (step_text DocumentLifecycle.published)
      (list_published_chunks (shelf DocumentLifecycle.published) tool_actor 50)
    ↔ (In
          (step_text DocumentLifecycle.published)
          (values (shelf DocumentLifecycle.published).chunks)
        × Retrievable (step_text DocumentLifecycle.published) tool_actor 50)
In-list_published_chunks_example =
    In-list_published_chunks (shelf DocumentLifecycle.published) tool_actor 50
      (step_text DocumentLifecycle.published)

not_published : DocumentLifecycle.withdrawn ≢ DocumentLifecycle.published
not_published h = ground arith

-- A chunk of another document on the same shelf stays retrievable.
abbrev other_text : Chunk
other_text = record (step_text DocumentLifecycle.published) {
  chunk_id = "c2";
  document_id = "guide";
}

abbrev full_shelf : Store
full_shelf = record (shelf DocumentLifecycle.published) {
  chunks = insert "c2" other_text (insert "c1" (step_text DocumentLifecycle.published) []);
}

other_text-listed : In other_text (
    list_published_chunks
      (set_revision "manual" "r1"
        (manual DocumentLifecycle.published)
        DocumentLifecycle.withdrawn
        full_shelf)
      tool_actor
      50)
unfolding list_published_chunks set_revision insert is_accessible
other_text-listed = here

set_revision_hides_example : belongs "manual" "r1" "guide" "r1" ≡ false
set_revision_hides_example =
    set_revision_hides full_shelf (manual DocumentLifecycle.published) "manual" "r1"
      DocumentLifecycle.withdrawn tool_actor 50 other_text not_published other_text-listed

-- The bundle of a withdrawn revision passes the checks of a restoration.
validate_restore_bundle_iff_example :
    (validate_restore_bundle services 50
        (bundle DocumentLifecycle.withdrawn)
        (some "v2")
        (shelf DocumentLifecycle.withdrawn)
      ≡ ok tt)
    ↔ Restorable services 50
        (bundle DocumentLifecycle.withdrawn)
        (some "v2")
        (shelf DocumentLifecycle.withdrawn)
validate_restore_bundle_iff_example =
    validate_restore_bundle_iff services 50 (bundle DocumentLifecycle.withdrawn) (some "v2")
      (shelf DocumentLifecycle.withdrawn)

bundle-passes :
    validate_restore_bundle services 50
      (bundle DocumentLifecycle.withdrawn)
      (some "v2")
      (shelf DocumentLifecycle.withdrawn)
    ≡ ok tt
unfolding validate_restore_bundle validate_objects manifest_of objects_fault object_fault
    validate_publication_governance validate_found validate_manifest validate_artifacts
    actual_artifacts lookup insert
bundle-passes = refl

services-IsRowwise : IsRowwise services
services-IsRowwise texts es h = ground arith

encode_chunks_rows_example :
    ((es : List String) × (encode_chunks services
          (step_text DocumentLifecycle.staged ∷ other_text ∷ [])
        ≡ ok es)
      × (length es ≡ 2)
      × Batched services ("Vent the chamber." ∷ other_text.chunk_text ∷ []) es)
    ⊎ ((w : String) × (encode_chunks services (step_text DocumentLifecycle.staged ∷ other_text ∷ [])
          ≡ err (Failure.external w))
        × FailedBatch services ("Vent the chamber." ∷ other_text.chunk_text ∷ []) w)
encode_chunks_rows_example =
    encode_chunks_rows services services-IsRowwise (omega arith)
      (step_text DocumentLifecycle.staged ∷ other_text ∷ [])
