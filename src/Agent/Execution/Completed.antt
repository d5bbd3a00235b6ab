-- ===== src/Agent/Execution/Completed.antt =====
-- What a completed task has passed.
use mathlib.Core.Path.{subst}
use semiconductor_agent_know.Base.{
  String, Bool, true, false, not, ◌&&◌, some, List, [], ◌∷◌, ◌==◌, contains, is_empty, All, In,
  here, there, In-cons, ◌≡◌, refl, ap, sym, ◌∙◌, arith, inl, inr, Bool-cases, string_eq, ==_iff,
}
use semiconductor_agent_know.Base.Dict.{Dict, lookup, insert}
use semiconductor_agent_know.Agent.Kinds.{
  AgentRoute, TaskExecutionDecision, TaskExecutionStatus, task_execution_decision_eq,
  task_execution_decision_iff, task_execution_status_eq, task_execution_status_iff,
}
use semiconductor_agent_know.Agent.Labels.{task_label}
use semiconductor_agent_know.Agent.Execution.Contract.{Required, meets_contract-Required}
use semiconductor_agent_know.Agent.Model.{RouteTaskDecision}
use semiconductor_agent_know.Agent.Execution.{
  EvidenceLedgerEntry, TaskExecutionResult, Inputs, cited, kept, keeps_internal, keeps_tool,
  keeps_external, meets_contract, has_answer, validate_executed_task, actual_task_route, task_named,
  failed_dependency, dependencies_of, output_of, executed_result, decided_result, task_result,
  finalize_from, finalize_tasks,
}

-- A cited entry of one source type that stands in the ledger.
abbrev pub Cites : String → List EvidenceLedgerEntry → List String → String → Type 0
Cites source ledger citations id =
    (e : EvidenceLedgerEntry) × In e ledger
    × (e.source_type ≡ source)
    × (e.evidence_id ≡ id)
    × (contains citations id ≡ true)

cited-Cites :
    (source : String) (ledger : List EvidenceLedgerEntry) (citations : List String) {id : String}
    → In id (cited source ledger citations)
    → Cites source ledger citations id
unfolding cited
cited-Cites source [] citations m = elim m [ ]
cited-Cites source (e ∷ es) citations {id} m =
    elim (Bool-cases ((e.source_type == source) && contains citations e.evidence_id)) [
      | inr n ↦
          let (x, p, q, same, c) = cited-Cites source es citations (rw n at m) in
          (x, there p, q, same, c)
      | inl h ↦
          let n : In id (e.evidence_id ∷ cited source es citations) = rw h at m in
          elim (In-cons n) [
            | inl same ↦ (
              e,
              here,
              (==_iff e.source_type source).0 (ground arith),
              sym same,
              rw same (ground arith),
            )
            | inr k ↦
                let (x, p, q, same, c) = cited-Cites source es citations k in
                (x, there p, q, same, c)
          ]
    ]

kept-In : (b : Bool) {id : String} (ids : List String) → In id (kept b ids) → In id ids
kept-In true ids m = m
kept-In false ids m = elim m [ ]

module _ (ledger : List EvidenceLedgerEntry) (citations external : List String) (id label : String)
    (route : AgentRoute) (text : String) where
  abbrev internal_ids : List String
  internal_ids = kept (keeps_internal route) (cited "internal_controlled" ledger citations)

  abbrev tool_ids : List String
  tool_ids = kept (keeps_tool route) (cited "simulated_live_data" ledger citations)

  abbrev external_ids : List String
  external_ids = kept (keeps_external route) (cited "external" ledger citations)

  abbrev validated : TaskExecutionResult
  validated = validate_executed_task ledger citations external id label route text

  validated-ids :
      (validated.evidence_ids ≡ internal_ids)
      × (validated.tool_fact_ids ≡ tool_ids)
      × (validated.external_evidence_ids ≡ external_ids)
      × (validated.route ≡ some route)
      × (validated.task_id ≡ id)
  unfolding validate_executed_task
  validated-ids =
      elim (Bool-cases
        (has_answer text && meets_contract route internal_ids tool_ids external_ids)) [
          | inl h ↦ rw h (refl, refl, refl, refl, refl)
          | inr h ↦ rw h (refl, refl, refl, refl, refl)
        ]

  validated-completed :
      validated.status ≡ TaskExecutionStatus.completed
      → (has_answer text ≡ true) × (meets_contract route internal_ids tool_ids external_ids ≡ true)
  unfolding validate_executed_task
  validated-completed h =
      elim (Bool-cases
        (has_answer text && meets_contract route internal_ids tool_ids external_ids)) [
          | inl k ↦ ground arith
          | inr k ↦ absurd (cc (rw k at h))
        ]

decided_result-completed :
    (i : Inputs) (d : RouteTaskDecision)
    → (decided_result i d).status ≡ TaskExecutionStatus.completed
    → (d.decision ≡ TaskExecutionDecision.execute) × (decided_result i d ≡ executed_result i d)
unfolding decided_result
decided_result-completed i d h = elim (Bool-cases (d.decision == TaskExecutionDecision.clarify)) [
  | inl c ↦ absurd (cc (rw c at h))
  | inr c ↦ elim (Bool-cases (d.decision == TaskExecutionDecision.refuse)) [
    | inl r ↦ absurd (cc (rw (c, r) at h))
    | inr r ↦ elim (Bool-cases (d.decision == TaskExecutionDecision.defer)) [
      | inl f ↦ absurd (cc (rw (c, r, f) at h))
      | inr f ↦ (ground arith, rw (c, r, f) refl)
    ]
  ]
]

no_errors : (es : List String) → not (is_empty es) ≡ false → es ≡ []
no_errors [] h = refl
no_errors (e ∷ es) h = absurd (cc)

task_result-completed :
    (i : Inputs) (known : Dict String TaskExecutionResult) (d : RouteTaskDecision)
    → (task_result i known d).status ≡ TaskExecutionStatus.completed
    → (d.decision ≡ TaskExecutionDecision.execute)
      × (i.authorization_errors ≡ [])
      × (failed_dependency known (dependencies_of (task_named d.task_id i.task_items)) ≡ false)
      × (task_result i known d ≡ executed_result i d)
unfolding task_result
task_result-completed i known d h =
    let runs = d.decision == TaskExecutionDecision.execute in
    let failed = failed_dependency known (dependencies_of (task_named d.task_id i.task_items)) in
    elim (Bool-cases (failed && runs)) [
      | inl a ↦ absurd (cc (rw a at h))
      | inr a ↦ elim (Bool-cases (not (is_empty i.authorization_errors) && runs)) [
        | inl b ↦ absurd (cc (rw (a, b) at h))
        | inr b ↦
            let (e, same) = decided_result-completed i d (rw (a, b) at h) in
            let r : runs ≡ true =
              (task_execution_decision_iff d.decision TaskExecutionDecision.execute).1 e in
            (e, no_errors i.authorization_errors (ground arith), ground arith, rw (a, b) same)
      ]
    ]

All_intro {ℓ κ} : {A : Type ℓ} (P : A → Type κ) (xs : List A) → ((a : A) → In a xs → P a) → All P xs
All_intro P [] h = tt
All_intro P (x ∷ xs) h = (h x here, All_intro P xs (λ a m. h a (there m)))

finalize_from-In :
    (i : Inputs) (known : Dict String TaskExecutionResult) (ds : List RouteTaskDecision)
    {r : TaskExecutionResult}
    → In r (finalize_from i known ds)
    → (d : RouteTaskDecision) × (before : Dict String TaskExecutionResult) × In d ds
      × (r ≡ task_result i before d)
unfolding finalize_from
finalize_from-In i known [] m = elim m [ ]
finalize_from-In i known (d ∷ ds) m = elim (In-cons m) [
  | inl e ↦ (d, known, here, e)
  | inr n ↦
      let t = task_result i known d in
      let (x, before, k, e) = finalize_from-In i (insert t.task_id t known) ds n in
      (x, before, there k, e)
]

kept-Cites :
    (source : String) (i : Inputs) (b : Bool)
    → All
        (Cites source i.evidence_ledger i.cited_evidence_ids)
        (kept b (cited source i.evidence_ledger i.cited_evidence_ids))
kept-Cites source i b =
    let ids = cited source i.evidence_ledger i.cited_evidence_ids in
    All_intro (Cites source i.evidence_ledger i.cited_evidence_ids) (kept b ids)
      (λ id m. cited-Cites source i.evidence_ledger i.cited_evidence_ids (kept-In b ids m))

-- What a completed result answers to: its decision, and the evidence that its route asks for.
abbrev pub Satisfies : Inputs → RouteTaskDecision → TaskExecutionResult → Type 0
Satisfies i d r =
    (r.task_id ≡ d.task_id)
    × (has_answer (output_of i d.task_id) ≡ true)
    × (r.route ≡ some (actual_task_route d.route i.actual_route))
    × Required (actual_task_route d.route i.actual_route) r.evidence_ids r.tool_fact_ids
        r.external_evidence_ids
    × All (Cites "internal_controlled" i.evidence_ledger i.cited_evidence_ids) r.evidence_ids
    × All (Cites "simulated_live_data" i.evidence_ledger i.cited_evidence_ids) r.tool_fact_ids
    × All (Cites "external" i.evidence_ledger i.cited_evidence_ids) r.external_evidence_ids

executed_result-Satisfies :
    (i : Inputs) (d : RouteTaskDecision)
    → (executed_result i d).status ≡ TaskExecutionStatus.completed
    → Satisfies i d (executed_result i d)
unfolding executed_result
executed_result-Satisfies i d h =
    let label = task_label (task_named d.task_id i.task_items) in
    let route = actual_task_route d.route i.actual_route in
    let text = output_of i d.task_id in
    let ledger = i.evidence_ledger in
    let citations = i.cited_evidence_ids in
    let (a, b, c, r, t) =
      validated-ids ledger citations i.external_evidence d.task_id label route text in
    let (answered, met) =
      validated-completed ledger citations i.external_evidence d.task_id label route text h in
    (
      t,
      answered,
      r,
      rw (a, b, c) (meets_contract-Required route _ _ _ met),
      rw a (kept-Cites "internal_controlled" i (keeps_internal route)),
      rw b (kept-Cites "simulated_live_data" i (keeps_tool route)),
      rw c (kept-Cites "external" i (keeps_external route)),
    )

-- A task is completed only if the plan lets it run, no object is out of the actor's scope, there is
-- a text for it, and the answer cites what its route asks for: every id that the result names is
-- cited by the answer and stands in the ledger with the source type it is named under.
pub finalize_tasks-completed :
    (i : Inputs) (ds : List RouteTaskDecision) {r : TaskExecutionResult}
    → In r (finalize_tasks i ds)
    → r.status ≡ TaskExecutionStatus.completed
    → (d : RouteTaskDecision) × In d ds
      × (d.decision ≡ TaskExecutionDecision.execute)
      × (i.authorization_errors ≡ [])
      × Satisfies i d r
unfolding finalize_tasks
finalize_tasks-completed i ds {r} m h =
    let (d, before, k, e) = finalize_from-In i [] ds m in
    let done : (task_result i before d).status ≡ TaskExecutionStatus.completed =
      sym (ap (λ (x : TaskExecutionResult). x.status) e) ∙ h in
    let (runs, none_out, ready, same) = task_result-completed i before d done in
    let ran : (executed_result i d).status ≡ TaskExecutionStatus.completed =
      sym (ap (λ (x : TaskExecutionResult). x.status) same) ∙ done in
    let s = executed_result-Satisfies i d ran in
    (d, k, runs, none_out, subst (Satisfies i d) (sym (e ∙ same)) s)

failed_dependency-found :
    (known : Dict String TaskExecutionResult) (names : List String) {name : String}
    {r : TaskExecutionResult}
    → failed_dependency known names ≡ false
    → In name names
    → lookup name known ≡ some r
    → r.status ≡ TaskExecutionStatus.completed
unfolding failed_dependency
failed_dependency-found known (n ∷ names) {r} f here e =
    elim (Bool-cases (r.status == TaskExecutionStatus.completed)) [
      | inl s ↦ (task_execution_status_iff r.status TaskExecutionStatus.completed).0 s
      | inr s ↦ ground arith
    ]
failed_dependency-found known (n ∷ names) f (there m) e =
    failed_dependency-found known names (ground arith) m e
failed_dependency-found known [] f m e = elim m [ ]

-- A task is completed only if each task that it depends on, and that has a result by then, is
-- completed.
pub task_result-dependencies :
    (i : Inputs) (known : Dict String TaskExecutionResult) (d : RouteTaskDecision) {name : String}
    {r : TaskExecutionResult}
    → (task_result i known d).status ≡ TaskExecutionStatus.completed
    → In name (dependencies_of (task_named d.task_id i.task_items))
    → lookup name known ≡ some r
    → r.status ≡ TaskExecutionStatus.completed
task_result-dependencies i known d h m e =
    let (_, _, ready, _) = task_result-completed i known d h in
    failed_dependency-found known (dependencies_of (task_named d.task_id i.task_items)) ready m e
