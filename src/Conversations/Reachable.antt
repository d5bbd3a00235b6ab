-- ===== src/Conversations/Reachable.antt =====
-- The calls of the conversation store as the steps of a machine, in whatever order they come.
use semiconductor_agent_know.Base.{
  ℕ, String, true, ◌≡◌, ap, sym, ◌∙◌, none, some, [], arith, string_eq, pair_eq, option_eq,
}
use semiconductor_agent_know.Base.Dict.{lookup, lookup-empty}
use semiconductor_agent_know.Conversations.Model.{
  AgentMessageRequestStatus, AgentMessageRequestRecord, ChatMessage, ThreadRecord, status_eq,
}
use semiconductor_agent_know.Conversations.{
  Conversations, in_progress, create_thread, save_thread, prepare_message_request,
  append_message_once, mark_message_request_running,
}
use semiconductor_agent_know.Conversations.Closing.{
  Finalization, Ending, finalize_stream_response, mark_message_request_terminal,
}
use semiconductor_agent_know.Conversations.Lease.{Leased, some_same}
use semiconductor_agent_know.Conversations.Steps.{
  create_thread-Leased, save_thread-Leased, append_message_once-Leased,
  finalize_stream_response-Leased, mark_message_request_running-Leased,
  mark_message_request_terminal-Leased, prepare_message_request-Leased,
}

-- A call of the store, with its arguments and the time.
pub data Call : Type 0 where
  create : ThreadRecord → Call
  save : ℕ → ThreadRecord → Call
  prepare : ℕ → AgentMessageRequestRecord → Call
  append : ℕ → String → ChatMessage → Call
  finalize : ℕ → String → ChatMessage → Finalization → Call
  mark_running : ℕ → AgentMessageRequestRecord → Call
  mark_terminal : ℕ → AgentMessageRequestRecord → AgentMessageRequestStatus → Ending → Call

-- The store that a call leaves, whether it returns or raises.
abbrev pub perform : Call → Conversations → Conversations
perform (Call.create th) s = (create_thread th s).1
perform (Call.save now th) s = (save_thread now th s).1
perform (Call.prepare now r) s = (prepare_message_request now r s).1
perform (Call.append now t message) s = (append_message_once now t message s).1
perform (Call.finalize now t message z) s = (finalize_stream_response now t message z s).1
perform (Call.mark_running now r) s = (mark_message_request_running now r s).1
perform (Call.mark_terminal now r status e) s = (mark_message_request_terminal now r status e s).1

-- What a caller gives: a new thread has an id of its own, a thread that is saved is a stored one with
-- the same owner, neither is leased, and a new request is accepted.
abbrev pub Allowed : Call → Conversations → Type 0
Allowed (Call.create th) s = (lookup th.thread_id s.threads ≡ none) × (th.active_request_id ≡ none)
Allowed (Call.save now th) s =
    (current : ThreadRecord) × (lookup th.thread_id s.threads ≡ some current)
    × (th.actor_scope.user_id ≡ current.actor_scope.user_id)
    × (th.active_request_id ≡ none)
Allowed (Call.prepare now r) s = r.status ≡ AgentMessageRequestStatus.accepted
Allowed _ s = Unit

-- The stores that calls lead to from the empty one.
pub data Reachable : Conversations → Type 0 where
  start : Reachable (record { threads = []; message_requests = [] })
  after : {s : Conversations} (c : Call) → Allowed c s → Reachable s → Reachable (perform c s)

perform-Leased : (c : Call) (s : Conversations) → Allowed c s → Leased s → Leased (perform c s)
perform-Leased (Call.create th) s (new, idle) l = create_thread-Leased 0 s l th new idle
perform-Leased (Call.save now th) s (current, f, u, idle) l = save_thread-Leased now s l th f u idle
perform-Leased (Call.prepare now r) s fresh l = prepare_message_request-Leased now s l r fresh
perform-Leased (Call.append now t message) s _ l = append_message_once-Leased now s l t message
perform-Leased (Call.finalize now t message z) s _ l =
    finalize_stream_response-Leased now s l t message z
perform-Leased (Call.mark_running now r) s _ l = mark_message_request_running-Leased now s l r
perform-Leased (Call.mark_terminal now r status e) s _ l =
    mark_message_request_terminal-Leased now s l r status e

-- In every reachable store a lease belongs to a request in progress of the owner of the thread, and
-- a request in progress holds the lease of its thread.
pub Reachable-Leased : (s : Conversations) → Reachable s → Leased s
Reachable-Leased _ Reachable.start = record {
  holder = λ t q th f a. ground (arith, lookup-empty {V = ThreadRecord} t, f);
  covered = λ t u q r f. ground (
    arith,
    lookup-empty {K = String × (String × String)} {V = AgentMessageRequestRecord} (t, (u, q)),
    f,
  );
}
Reachable-Leased _ (Reachable.after {s} c allowed r) =
    perform-Leased c s allowed (Reachable-Leased s r)

-- In a reachable store two requests that are in progress on one thread are the same request of the
-- same actor.
pub Reachable_exclusive :
    (s : Conversations) (t u v q p : String) (r r' : AgentMessageRequestRecord)
    → Reachable s
    → lookup (t, (u, q)) s.message_requests ≡ some r
    → in_progress r.status ≡ true
    → lookup (t, (v, p)) s.message_requests ≡ some r'
    → in_progress r'.status ≡ true
    → (u ≡ v) × (q ≡ p)
Reachable_exclusive s t u v q p r r' reach f i g j =
    let l = Reachable-Leased s reach in
    let (th, a, b, c) = l.covered t u q r f in
    let (th', a', b', c') = l.covered t v p r' g in
    let same : th ≡ th' = some_same (sym a ∙ a') in
    (
      sym b ∙ ap (λ (w : ThreadRecord). w.actor_scope.user_id) same ∙ b',
      some_same (sym (c i) ∙ ap (λ (w : ThreadRecord). w.active_request_id) same ∙ c' j),
    )
