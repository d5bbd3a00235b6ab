-- ===== src/Lib.antt =====
-- A model of the core of the semiconductor knowledge base: the lifecycle of governed document
-- revisions, the publication gate, retrieval access, the ledger of ingestion jobs, the
-- conversation store and the working context of a conversation, the retries of calls to providers,
-- and the decisions of the agent: the route policy, the clarifications, the results of tasks, what
-- retrieval lets through, and the routing of uploaded documents.
--
-- The parts and how they interact. A document revision with its chunks, images and tables stands
-- in a store (src/semikb/storage/memory.py). The lifecycle repository
-- (src/semikb/storage/knowledge_documents.py) blocks and publishes revisions in that store and
-- keeps the records of the operations. The lifecycle service
-- (src/semikb/rag_ingestion/document_lifecycle.py) takes requests to withdraw and to restore a
-- revision, and its worker runs them against the vector index, the encoder and the object store; a
-- restoration passes the publication gate (src/semikb/rag_ingestion/publication_governance.py).
-- Retrieval reads the chunks that the access policy of the store lets through. The agent keeps its
-- threads and message requests in the same store object, under other keys, and the slots of a
-- conversation in the active context of its thread. The agent plans a message with the route
-- policy (src/semikb/agent_runtime/routing.py): each task of an understanding is allowed, deferred
-- or refused, the routes are combined, and a plan that misses a slot or lacks confidence asks
-- back. A question that it asks is kept as a clarification frame
-- (src/semikb/agent_runtime/clarification.py); the next message is related to the frame, merged
-- into the understanding that waits, and planned again (src/semikb/agent_runtime/graph.py). What
-- is retrieved passes a gate and is assessed (src/semikb/agent_runtime/evidence_sufficiency.py),
-- which decides whether it may carry an answer and whether the web is searched; the trace records
-- it for later questions. After the answer is written each task gets its result
-- (src/semikb/agent_runtime/task_execution.py). An uploaded document is routed to its parser by
-- src/semikb_ingest/routing.py. Calls of remote providers go through
-- src/semikb_provider_resilience.
--
-- Which file models which part:
--
-- - Base: native numbers, lists, Boolean tests; Base/Keys is equality of dictionary keys as an
--   interface, Base/Dict a Python dict as the list of its items, Base/Result methods that change a
--   state and may raise.
-- - Documents/Kinds, Documents/Model, Documents/Codes: the enumerations, records and warning codes
--   of src/semikb/contracts/models.py and of the modules that raise them.
-- - Documents/Store: `_is_accessible`, `list_published_chunks` and the writes of a lifecycle;
--   Documents/Store/Access proves about them.
-- - Documents/Governance: `validate_publication_governance`; Documents/Governance/Gate states what
--   it asks.
-- - Documents/Repository: `DemoKnowledgeDocumentRepository`, one function for each method that the
--   service calls; Documents/Repository/Consistency is about its writes.
-- - Documents/Service: the collaborators as a record of operations, the state, `_save`, `_audit`,
--   `_require_compensation`, `_fail_validation`.
-- - Documents/Lifecycle: `request_withdrawal`, `request_restore`; Documents/Lifecycle/Blocking and
--   Documents/Lifecycle/Requests prove about them.
-- - Documents/Restoration: `_encode`, `_validate_object`, `_validate_restore_bundle`,
--   `_reblock_after_restore_failure` and the `try` block of `_process_restore`;
--   Documents/Restoration/Encode and Documents/Restoration/Checks prove about them.
-- - Documents/Worker: `process`, `_process_withdrawal`, `_process_restore`, `prepare_retry`,
--   `mark_dispatch_failed`; Documents/Worker/Restore, Documents/Worker/Outcome,
--   Documents/Worker/Withdrawal and Documents/Worker/Claims prove about them.
-- - Documents/Publication: registration of manifests, staging, publication and compensation in
--   src/semikb/storage/memory.py; Documents/Publication/Outcome proves about them.
-- - Ingestion: the ledger of ingestion jobs in src/semikb/storage/memory.py (`create_or_get_job`,
--   `prepare_retry` as `prepare_job_retry`, `update_job` and the setters); Ingestion/Jobs and
--   Ingestion/Resent prove about it.
-- - Conversations/Model, Conversations, Conversations/Closing: threads and message requests
--   (`prepare_message_request`, `append_message_once`, `finalize_stream_response`,
--   `mark_message_request_running`, `mark_message_request_terminal`, `save_thread`) of
--   src/semikb/storage/memory.py; Conversations/Lease, Conversations/Steps,
--   Conversations/Reachable and Conversations/Requests prove about them.
-- - Resilience: src/semikb_provider_resilience/__init__.py; Resilience/Backoff, Resilience/Attempt
--   and Resilience/Journal prove about it.
-- - Context: `update_active_context` and `normalized_messages` of
--   src/semikb/agent_runtime/context.py; Context/Slots and Context/Turns prove about them.
-- - Base/Every: lemmas on tests over lists. Doubles: the arithmetic of floats; Doubles/Fuel shows
--   that its fuel is enough.
-- - Agent/Kinds, Agent/Model: the enumerations and records of src/semikb/contracts/models.py that
--   the agent reads; Agent/Text: texts as lists of code points, and the searches of the patterns.
-- - Agent/TaskRoute, Agent/Missing, Agent/Combination, Agent/Routing: `_task_route`,
--   `_required_missing`, `_enforce_predefined_combination` with `_combine_routes`, and
--   `RoutePolicy.decide` of src/semikb/agent_runtime/routing.py; Agent/Combination/Allowed,
--   Agent/Routing/Permitted, Agent/Routing/Executes and Agent/Routing/Answered prove about them.
-- - Agent/Frames, Agent/Relation, Agent/Clarification: the frames, `decide_turn_relation`, and
--   `build_clarification_frame`, `merge_continuation_understanding`, `update_frame_after_answer`
--   and `terminal_transition` of src/semikb/agent_runtime/clarification.py;
--   Agent/Relation/Grounded and Agent/Clarification/Resolved prove about them.
-- - Agent/Turn: the nodes of src/semikb/agent_runtime/graph.py that resolve a clarification and
--   plan the completed request; Agent/Turn/Outcome proves about them.
-- - Agent/Labels, Agent/Execution: the texts and `finalize_tasks` of
--   src/semikb/agent_runtime/task_execution.py; Agent/Execution/Contract and
--   Agent/Execution/Completed prove about them.
-- - Agent/Semantics, Agent/Terms, Agent/Eligibility, Agent/Evidence: `_terms` and
--   `_term_coverage`, `_answer_eligible_evidence`, and `_deterministic_assessment`,
--   `_judge_borderline` and `assess` of src/semikb/agent_runtime/evidence_sufficiency.py;
--   Agent/Terms/Rounded, Agent/Eligibility/Candidates, Agent/Eligibility/Eligible and
--   Agent/Evidence/Sufficient prove about them.
-- - Agent/Assessing: `_assess_evidence` of src/semikb/agent_runtime/graph.py;
--   Agent/Assessing/Recorded proves about it and the reuse of a trace.
-- - Retrieval: the test of the constraints, `_select_candidates`, `reuse_trace_evidence` and
--   `asset_access` of src/semikb/rag_retrieval/service.py; Retrieval/Cut, Retrieval/Reuse and
--   Retrieval/Assets prove about them.
-- - Formats, Formats/Archive, Formats/Resolve: the table of formats, `_inspect_office` and
--   `resolve` of src/semikb_ingest/routing.py; Formats/Archive/Safe and Formats/Resolve/Routed
--   prove about them.
-- - Tests: data, and the theorems applied to them.
--
-- State and operations. A method is a function from the state to its result and the state that it
-- leaves; what was written before an exception stays written. An object that Python changes in
-- place is written back under its key. The lock of the store makes its methods atomic, so an
-- interleaving is a sequence of calls (`Reachable` of Conversations/Reachable). The clock and
-- fresh ids are arguments.
--
-- Parameters. The vector index, the encoder, the object store with SHA-256, the provider call, the
-- sleeper, the performance counter, the comparison of two source manifests by all their fields,
-- the text search for the message that names a value (`_find_source_message`), the hash of the
-- signature of a clarification, the directory of a zip archive, `str.casefold` and the model that
-- judges borderline evidence are parameters of the definitions that use them. The encoder is
-- assumed to answer a batch with one row for each text where the number of rows is claimed, and
-- the count of calls to be raised by a call and left alone by the sleeper.
--
-- Bounds and fuel. The loop of `_encode` runs on fuel, the number of texts, which is enough as
-- each batch takes at least one text when the batch size is at least one. A minute is an argument
-- of the retry loop, 60 seconds in ticks. The retry loop runs on the number of attempts of the
-- policy, as its Python range does. A `datetime` and a duration are natural numbers of ticks; a
-- retry-after header is a number of seconds or a number below zero, never NaN. Operation ids are
-- not empty texts. A score and a bound for one are floats that are not negative, in units of the
-- least positive float, with quotients and differences rounded to 53 bits as Python rounds them;
-- 1022 halvings are enough for a quotient that is at most one, and 2045 for a difference
-- (Doubles/Fuel), and numbers too large for a float are left out. A coverage, and a bound of the
-- settings for one, is a number of ten-thousandths; the quotient of a coverage is rounded exactly,
-- a tie to the even number, which is what the float does while a query has fewer than 160 terms. A
-- confidence is a number of millionths. The bounds that pydantic puts on an audit of an attempt
-- and on an ingestion event are tests of the model, and breaking one is an error that leaves what
-- was written before; a progress, an attempt and a latency are never negative. The fields of an
-- understanding that no modelled code reads are left out, and a clarification frame always carries
-- the understanding and the plan that it was built from. The regular expressions are written out
-- as pieces that are tried at every position, with the folding of letters that IGNORECASE does.
-- The search for a free turn number runs on the number of used ones and one more, and never takes
-- a second step.
--
-- Not modelled: the Mongo, MinIO and Milvus adapters, which talk to services; the HTTP interface,
-- workers and deployment scripts; the parsers of file formats; the prompts, the understanding of a
-- message and the other text heuristics of the agent; the scores of candidates; the listing
-- queries, which only read and sort; the web client.
pub mod Base
pub mod Documents
pub mod Conversations
pub mod Resilience
pub mod Context
pub mod Agent
pub mod Doubles
pub mod Retrieval
pub mod Ingestion
pub mod Formats
pub mod Tests
