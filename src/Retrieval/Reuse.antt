-- ===== src/Retrieval/Reuse.antt =====
-- Evidence of an earlier answer is reused only where it would be found again.
use mathlib.Core.Path.{subst}
use semiconductor_agent_know.Base.{
  ℕ, String, true, ◌||◌, Option, some, List, [], ◌∷◌, ◌==◌, contains, map, All, In, here, there,
  ◌≡◌, refl, ap, sym, ◌∙◌, arith, ◌⊎◌, inl, inr, Bool-cases, Option-cases, string_eq,
}
use semiconductor_agent_know.Base.Dict.{Dict, lookup, insert, insert-found, lookup-empty}
use semiconductor_agent_know.Documents.Model.{ActorScope, Chunk}
use semiconductor_agent_know.Documents.Store.{Store, list_published_chunks}
use semiconductor_agent_know.Retrieval.{
  RetrievalConstraints, RetrievalTrace, meets_given, get_trace, by_id, evidence_chunks,
  reuse_trace_evidence,
}

by_id-found :
    (id : String) {c : Chunk} (cs : List Chunk) (d : Dict String Chunk)
    → lookup id (by_id cs d) ≡ some c
    → ((c.chunk_id ≡ id) × In c cs) ⊎ (lookup id d ≡ some c)
unfolding by_id
by_id-found id [] d h = inr h
by_id-found id {c} (x ∷ cs) d h = elim (by_id-found id cs (insert x.chunk_id x d) h) [
  | inl (e, m) ↦ inl (e, there m)
  | inr k ↦ elim (insert-found x.chunk_id id d k) [
    | inl (e, same) ↦
        inl (sym (ap (λ (y : Chunk). y.chunk_id) same) ∙ e, subst (λ y. In y (x ∷ cs)) same here)
    | inr (_, old) ↦ inr old
  ]
]

-- What is asked of each chunk that is reused.
abbrev pub Reusable : Store → ActorScope → ℕ → Option RetrievalConstraints → Chunk → Type 0
Reusable s actor now constraints c =
    In c (list_published_chunks s actor now) × (meets_given constraints c ≡ true)

some_inj {ℓ} : {A : Type ℓ} {a b : A} → some a ≡ some b → a ≡ b
some_inj h = ground arith

accessible-In :
    (s : Store) (actor : ActorScope) (now : ℕ) (id : String) {c : Chunk}
    → lookup id (by_id (list_published_chunks s actor now) []) ≡ some c
    → (c.chunk_id ≡ id) × In c (list_published_chunks s actor now)
accessible-In s actor now id {c} e =
    elim (by_id-found id (list_published_chunks s actor now) [] e) [
      | inl found ↦ found
      | inr old ↦ absurd (cc (old, lookup-empty {V = Chunk} id))
    ]

evidence_chunks-Reusable :
    (s : Store) (actor : ActorScope) (now : ℕ) (constraints : Option RetrievalConstraints)
    (ids : List String) {cs : List Chunk}
    → evidence_chunks (by_id (list_published_chunks s actor now) []) constraints ids ≡ some cs
    → All (Reusable s actor now constraints) cs × (map (λ (c : Chunk). c.chunk_id) cs ≡ ids)
unfolding evidence_chunks
evidence_chunks-Reusable s actor now constraints [] {cs} h =
    let e : [] ≡ cs = some_inj h in rw (← e) (tt, refl)
evidence_chunks-Reusable s actor now constraints (id ∷ ids) {cs} h =
    let accessible = by_id (list_published_chunks s actor now) [] in
    elim (Option-cases (lookup id accessible)) [
      | inl e ↦ absurd (ground (arith, e))
      | inr (c, e) ↦ elim (Bool-cases (meets_given constraints c)) [
        | inr k ↦ absurd (ground (arith, e, k))
        | inl k ↦ elim (Option-cases (evidence_chunks accessible constraints ids)) [
          | inl n ↦ absurd (ground (arith, e, k, n))
          | inr (rest, n) ↦
              let whole : c ∷ rest ≡ cs = ground (arith, e, k, n) in
              let (ok_rest, same) = evidence_chunks-Reusable s actor now constraints ids n in
              let (named, m) = accessible-In s actor now id e in
              rw (← whole) (((m, k), ok_rest), ground (arith, named, same))
        ]
      ]
    ]

-- The evidence of a trace is reused whole or not at all: each id of the trace names a chunk that the
-- actor may retrieve now and that meets the constraints, and the trace is the actor's own, unless
-- the actor is an admin.
pub reuse_trace_evidence_lem :
    (s : Store) (traces : Dict String RetrievalTrace) (trace_id : String) (actor : ActorScope)
    (constraints : Option RetrievalConstraints) (now : ℕ) {cs : List Chunk} {t : RetrievalTrace}
    → reuse_trace_evidence s traces trace_id actor constraints now ≡ some (cs, t)
    → (lookup trace_id traces ≡ some t)
      × ((contains actor.roles "admin" || (t.actor_user_id == actor.user_id)) ≡ true)
      × (map (λ (c : Chunk). c.chunk_id) cs ≡ t.final_evidence_ids)
      × All (Reusable s actor now constraints) cs
unfolding reuse_trace_evidence get_trace
reuse_trace_evidence_lem s traces trace_id actor constraints now {cs} {t} h =
    elim (Option-cases (lookup trace_id traces)) [
      | inl e ↦ absurd (ground (arith, e))
      | inr (u, e) ↦
          elim (Bool-cases (contains actor.roles "admin" || (u.actor_user_id == actor.user_id))) [
            | inr k ↦ absurd (ground (arith, e, k))
            | inl k ↦
                let accessible = by_id (list_published_chunks s actor now) [] in
                elim (Option-cases (evidence_chunks accessible constraints u.final_evidence_ids)) [
                  | inl n ↦ absurd (ground (arith, e, k, n))
                  | inr (found, n) ↦
                      let whole : found ≡ cs = ground (arith, e, k, n) in
                      let same : u ≡ t = ground (arith, e, k, n) in
                      let (reusable, names) =
                        evidence_chunks-Reusable s actor now constraints u.final_evidence_ids n in
                      rw (← same, ← whole) (e, k, names, reusable)
                ]
          ]
    ]
