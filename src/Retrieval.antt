-- ===== src/Retrieval.antt =====
-- Retrieval over the store (semikb/rag_retrieval/service.py) without the scoring of the candidates:
-- the constraints of a search, the cut of the ranked candidates, the reuse of the evidence of a
-- trace, and the access to an image. A rerank score is a `float` that is not negative.
pub mod Cut
pub mod Reuse
pub mod Assets
use semiconductor_agent_know.Base.{
  ℕ, suc, ◌+◌, ◌-◌, ◌*◌, min, max, String, Bool, true, false, not, ◌&&◌, ◌||◌, Option, none, some,
  List, [], ◌∷◌, ◌==◌, ltb, leb, given, contains, is_empty, length, take, drop, filter,
  if◌then◌else◌, string_eq, option_eq, pair_eq,
}
use semiconductor_agent_know.Base.Dict.{Dict, lookup, insert}
use semiconductor_agent_know.Base.Result.{Result, ok, err}
use semiconductor_agent_know.Doubles.{difference, quotient, literal}
use semiconductor_agent_know.Documents.Kinds.{ChunkType}
use semiconductor_agent_know.Documents.Model.{
  ActorScope, DocumentRevision, Chunk, ImageAsset, ObjectRef,
}
use semiconductor_agent_know.Documents.Store.{Store, is_accessible, list_published_chunks}

pub record RetrievalConstraints : Type 0 where
  pub fab : Option String
  pub product : Option String
  pub process_layer : Option String
  pub tool_id : Option String
  pub chamber : Option String
  pub recipe_id : Option String
  pub recipe_version : Option String

pub record RetrievalCandidate : Type 0 where
  pub chunk_id : String
  pub rerank_score : ℕ
  pub selected : Bool
  pub protected_evidence : Bool
  pub answer_eligible : Bool
  pub answer_eligibility_reasons : List String
  pub answer_term_coverage : ℕ

pub record RetrievalTrace : Type 0 where
  pub trace_id : String
  pub actor_user_id : String
  pub routes : List String
  pub candidates : List RetrievalCandidate
  pub cutoff_reason : String
  pub final_evidence_ids : List String
  pub image_asset_ids : List String

-- `not getattr(constraints, field) or getattr(chunk, field) == getattr(constraints, field)`
abbrev pub agrees_on : Option String → Option String → Bool
agrees_on wanted value = not (given wanted) || (value == wanted)

unfoldable pub meets_constraints : RetrievalConstraints → Chunk → Bool
meets_constraints k c =
    agrees_on k.fab c.fab
    && agrees_on k.product c.product
    && agrees_on k.process_layer c.process_layer
    && agrees_on k.tool_id c.tool_id
    && agrees_on k.chamber c.chamber
    && agrees_on k.recipe_id c.recipe_id
    && agrees_on k.recipe_version c.recipe_version

abbrev pub meets_given : Option RetrievalConstraints → Chunk → Bool
meets_given none c = true
meets_given (some k) c = meets_constraints k c

-- The chunks that a search scores.
unfoldable pub searched_chunks : Store → ActorScope → ℕ → Option RetrievalConstraints → List Chunk
searched_chunks s actor now constraints =
    filter (meets_given constraints) (list_published_chunks s actor now)

pub data CutoffReason : Type 0 where
  no_accessible_candidates candidate_count_within_limit rerank_score_cliff top_k : CutoffReason

-- `previous > 0 and (previous - current) / previous >= 0.45`
unfoldable pub is_cliff : RetrievalCandidate → RetrievalCandidate → Bool
is_cliff p c =
    ltb 0 p.rerank_score
    && leb (literal 45 100) (quotient (difference p.rerank_score c.rerank_score) p.rerank_score)

-- The loop from `index` on, with the candidate before it and those from it on.
unfoldable pub cliff_at : ℕ → RetrievalCandidate → List RetrievalCandidate → Option ℕ
cliff_at index p [] = none
cliff_at index p (c ∷ cs) =
    let rest = cliff_at (suc index) c cs in if is_cliff p c then some index else rest

abbrev pub cliff_in : ℕ → List RetrievalCandidate → Option ℕ
cliff_in index [] = none
cliff_in index (p ∷ cs) = cliff_at index p cs

unfoldable pub select_candidates :
    List RetrievalCandidate → ℕ → List RetrievalCandidate × CutoffReason
select_candidates candidates top =
    let max_docs = min (max top 3) 8 in
    let selected = take max_docs candidates in
    let min_docs = min 3 (length selected) in
    if is_empty candidates
    then ([], CutoffReason.no_accessible_candidates)
    else if leb (length candidates) max_docs
    then (selected, CutoffReason.candidate_count_within_limit)
    else elim (cliff_in min_docs (drop (min_docs - 1) selected)) [
      | some index ↦ (take index selected, CutoffReason.rerank_score_cliff)
      | none ↦ (selected, CutoffReason.top_k)
    ]

-- `store.get_trace(trace_id, actor_scope)`
unfoldable pub get_trace : Dict String RetrievalTrace → String → ActorScope → Option RetrievalTrace
get_trace traces trace_id actor = elim (lookup trace_id traces) [
  | none ↦ none
  | some t ↦
      if contains actor.roles "admin" || (t.actor_user_id == actor.user_id) then some t else none
]

-- `{chunk.chunk_id: chunk for chunk in chunks}`
unfoldable pub by_id : List Chunk → Dict String Chunk → Dict String Chunk
by_id [] d = d
by_id (c ∷ cs) d = by_id cs (insert c.chunk_id c d)

-- The loop over the evidence ids: any id that is not accessible, or not in the constraints, is a no.
unfoldable pub evidence_chunks :
    Dict String Chunk → Option RetrievalConstraints → List String → Option (List Chunk)
evidence_chunks accessible constraints [] = some []
evidence_chunks accessible constraints (id ∷ ids) =
    let rest = evidence_chunks accessible constraints ids in
    elim (lookup id accessible) [
      | none ↦ none
      | some c ↦
          if meets_given constraints c
          then elim rest [ none ↦ none | some cs ↦ some (c ∷ cs) ]
          else none
    ]

unfoldable pub reuse_trace_evidence :
    Store
    → Dict String RetrievalTrace
    → String
    → ActorScope
    → Option RetrievalConstraints
    → ℕ
    → Option (List Chunk × RetrievalTrace)
reuse_trace_evidence s traces trace_id actor constraints now =
    elim (get_trace traces trace_id actor) [
      | none ↦ none
      | some t ↦
          let found =
            evidence_chunks (by_id (list_published_chunks s actor now) []) constraints
              t.final_evidence_ids in
          if is_empty t.final_evidence_ids
          then none
          else elim found [ none ↦ none | some cs ↦ some (cs, t) ]
    ]

pub data AssetError : Type 0 where
  key_error permission_error : AssetError

-- The chunk that stands for an image in the access policy.
abbrev pub probe_of : ImageAsset → DocumentRevision → Chunk
probe_of a d = record {
  chunk_id = a.image_id;
  document_id = a.document_id;
  revision = a.revision;
  chunk_type = ChunkType.text;
  chunk_text = a.caption;
  approval_status = a.approval_status;
  lifecycle = a.lifecycle;
  effective_at = a.effective_at;
  expires_at = a.expires_at;
  access_scope_key = a.access_scope_key;
  fab = d.fab;
  product = d.product;
  process_layer = none;
  tool_id = d.tool_id;
  chamber = none;
  recipe_id = none;
  recipe_version = none;
  image_ids = [];
  index_version = "v1";
}

-- The object that an actor may fetch.
unfoldable pub asset_access : Store → String → ActorScope → ℕ → Result AssetError ObjectRef
asset_access s image_id actor now = elim (lookup image_id s.images) [
  | none ↦ err AssetError.key_error
  | some a ↦ elim (lookup (a.document_id, a.revision) s.documents) [
    | none ↦ err AssetError.key_error
    | some d ↦
        if is_accessible (probe_of a d) actor now
        then ok a.object_ref
        else err AssetError.permission_error
  ]
]
