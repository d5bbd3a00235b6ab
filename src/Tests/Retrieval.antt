-- ===== src/Tests/Retrieval.antt =====
-- Retrieval on one revision with one chunk and one image.
use semiconductor_agent_know.Doubles.{nearest, literal, quotient, difference, rounded, one}
use semiconductor_agent_know.Base.{
  false, ℕ, String, true, ◌||◌, none, some, List, [], ◌∷◌, ◌==◌, contains, map, All, length, min,
  max, take, ◌≡◌, ◌≢◌, ◌↔◌, ◌≤◌, refl, string_eq, pair_eq,
}
use semiconductor_agent_know.Base.Dict.{Dict, lookup, insert}
use semiconductor_agent_know.Base.Result.{ok}
use semiconductor_agent_know.Documents.Kinds.{ApprovalStatus, DocumentLifecycle}
use semiconductor_agent_know.Documents.Model.{DocumentRevision, Chunk, ImageAsset}
use semiconductor_agent_know.Documents.Store.{
  Store, is_accessible, list_published_chunks, set_revision,
}
use semiconductor_agent_know.Retrieval.{
  RetrievalCandidate, RetrievalTrace, CutoffReason, cliff_at, select_candidates, is_cliff,
  get_trace, by_id, evidence_chunks, reuse_trace_evidence, asset_access,
}
use semiconductor_agent_know.Retrieval.Cut.{select_candidates_bounds}
use semiconductor_agent_know.Retrieval.Reuse.{Reusable, reuse_trace_evidence_lem}
use semiconductor_agent_know.Retrieval.Assets.{
  Fetchable, asset_access_iff, set_revision_hides_assets,
}
use semiconductor_agent_know.Tests.Data.{tool_actor, source, manual, step_text, shelf}

abbrev published : DocumentLifecycle
published = DocumentLifecycle.published

abbrev photo : ImageAsset
photo = record {
  image_id = "i1";
  document_id = "manual";
  revision = "r1";
  object_ref = source;
  caption = "The valve.";
  access_scope_key = some "fab-a";
  approval_status = ApprovalStatus.approved;
  lifecycle = published;
  effective_at = 10;
  expires_at = none;
}

abbrev illustrated : Store
illustrated = record (shelf published) { images = insert "i1" photo [] }

abbrev scored : String → ℕ → RetrievalCandidate
scored id n = record {
  chunk_id = id;
  rerank_score = n;
  selected = true;
  protected_evidence = false;
  answer_eligible = false;
  answer_eligibility_reasons = [];
  answer_term_coverage = 0;
}

-- Ten candidates with a cliff behind the fourth.
abbrev ranked : List RetrievalCandidate
ranked =
    scored "a" (literal 90 100)
    ∷ scored "b" (literal 85 100)
    ∷ scored "c" (literal 80 100)
    ∷ scored "d" (literal 79 100)
    ∷ scored "e" (literal 30 100)
    ∷ scored "f" (literal 29 100)
    ∷ scored "g" (literal 28 100)
    ∷ scored "h" (literal 27 100)
    ∷ scored "i" (literal 26 100)
    ∷ scored "j" (literal 25 100)
    ∷ []

cut_at_cliff : select_candidates ranked 6 ≡ (take 4 ranked, CutoffReason.rerank_score_cliff)
unfolding select_candidates cliff_at is_cliff difference quotient literal rounded one nearest
cut_at_cliff = refl

-- 1.0 and 0.55 are a hair less than 0.45 apart as `float`s.
no_cliff : is_cliff (scored "a" one) (scored "b" (literal 55 100)) ≡ false
unfolding is_cliff difference quotient literal rounded one nearest
no_cliff = refl

select_candidates_bounds_example :
    (n : ℕ) × ((select_candidates ranked 6).0 ≡ take n ranked)
    × (min 3 (length ranked) ≤ length (select_candidates ranked 6).0)
    × (length (select_candidates ranked 6).0 ≤ min (max 6 3) 8)
select_candidates_bounds_example = select_candidates_bounds ranked 6

abbrev trace : RetrievalTrace
trace = record {
  trace_id = "t1";
  actor_user_id = "engineer";
  routes = [];
  candidates = [];
  cutoff_reason = "top_k";
  final_evidence_ids = "c1" ∷ [];
  image_asset_ids = [];
}

abbrev traces : Dict String RetrievalTrace
traces = ("t1", trace) ∷ []

reused :
    reuse_trace_evidence (shelf published) traces "t1" tool_actor none 20
    ≡ some (step_text published ∷ [], trace)
unfolding reuse_trace_evidence get_trace lookup by_id list_published_chunks is_accessible
    evidence_chunks insert
reused = refl

reuse_trace_evidence_lem_example :
    (lookup "t1" traces ≡ some trace)
    × ((contains tool_actor.roles "admin" || (trace.actor_user_id == tool_actor.user_id)) ≡ true)
    × (map (λ (c : Chunk). c.chunk_id) (step_text published ∷ []) ≡ "c1" ∷ [])
    × All (Reusable (shelf published) tool_actor 20 none) (step_text published ∷ [])
reuse_trace_evidence_lem_example =
    reuse_trace_evidence_lem (shelf published) traces "t1" tool_actor none 20 reused

asset_access_iff_example : (asset_access illustrated "i1" tool_actor 20 ≡ ok source) ↔ (
    (a : ImageAsset) × (d : DocumentRevision) × (lookup "i1" illustrated.images ≡ some a)
    × (lookup (a.document_id, a.revision) illustrated.documents ≡ some d)
    × Fetchable a d tool_actor 20
    × (source ≡ a.object_ref))
asset_access_iff_example = asset_access_iff illustrated "i1" tool_actor 20 source

handed_out : asset_access illustrated "i1" tool_actor 20 ≡ ok source
unfolding asset_access lookup insert is_accessible
handed_out = refl

set_revision_hides_assets_example :
    asset_access
      (set_revision "manual" "r1" (manual published) DocumentLifecycle.withdrawn illustrated)
      "i1"
      tool_actor
      20
    ≢ ok source
unfolding lookup insert
set_revision_hides_assets_example =
    set_revision_hides_assets illustrated (manual published) "manual" "r1"
      DocumentLifecycle.withdrawn "i1" photo (cc) refl refl tool_actor 20 source
