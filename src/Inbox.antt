-- ===== src/Inbox.antt =====
-- src/agents/api/inbox.py: `POST /inbox`. The request is its envelope, `ttl_seconds` on ℕ, so that
-- nonpositive is 0; the ULID, the trace id and the time are arguments. Metrics, logs and the
-- trace context are left out.
pub mod Retry
pub mod Ingress
pub mod Examples
use langgraph_agents.Base.{
  ℕ, zero, suc, Bool, true, false, Option, none, some, List, [], ◌∷◌, ◌==◌, not, any, is_some,
  if◌then◌else◌, or_else, Text, text_or, text_eq, strip,
}
use langgraph_agents.State.{
  Intent, question, action, research, note, bug, idea, reminder, Requester, rob, renee, system,
  agent_of_name,
}
use langgraph_agents.Queue.Envelope.{Envelope}
use langgraph_agents.Queue.Store.{Store, enqueue}
use langgraph_agents.Idempotency.{Redis, DedupStore, check_and_set}

pub data RejectReason : Type 0 where
  task_id_blank content_blank ttl_nonpositive idempotency_key_blank : RejectReason
  unknown_target_agent : RejectReason

pub data InboxResponse : Type 0 where
  queue_not_initialized : InboxResponse  -- 503
  rejected : RejectReason → InboxResponse  -- 422
  intent_missing : InboxResponse  -- 422
  intent_not_allowed : InboxResponse  -- 403
  unique_violation : InboxResponse  -- the exception of `enqueue`, uncaught
  duplicate : (task_id : Text) → InboxResponse
  accepted : (task_id conversation_id : Text) → InboxResponse

abbrev pub is_blank : Text → Bool
is_blank s = text_eq (strip s) []

abbrev pub is_zero : ℕ → Bool
is_zero n = n == 0

-- `x is not None and p(x)`
abbrev pub holds {ℓ} : {A : Type ℓ} → (A → Bool) → Option A → Bool
holds p none = false
holds p (some x) = p x

abbrev pub is_unknown_agent : Text → Bool
is_unknown_agent name = not (is_some (agent_of_name name))

unfoldable pub validate_envelope : Envelope → Option RejectReason
validate_envelope req =
    if is_blank req.client_task_id
    then some task_id_blank
    else if is_blank req.content
    then some content_blank
    else if holds is_zero req.ttl_seconds
    then some ttl_nonpositive
    else if holds is_blank req.idempotency_key
    then some idempotency_key_blank
    else if holds is_unknown_agent req.target_agent
    then some unknown_target_agent
    else none

abbrev pub intent_index : Intent → ℕ
intent_index question = 0
intent_index action = 1
intent_index research = 2
intent_index note = 3
intent_index bug = 4
intent_index idea = 5
intent_index reminder = 6

abbrev pub is_allowed_intent : List Intent → Intent → Bool
is_allowed_intent allowed i = any (λ j. intent_index j == intent_index i) allowed

abbrev pub check_intent : List Intent → Option Intent → Option InboxResponse
check_intent allowed none = some intent_missing
check_intent allowed (some i) =
    if is_allowed_intent allowed i then none else some intent_not_allowed

-- `requester="renee"` is held to the intents of the settings.
abbrev pub check_requester : List Intent → Envelope → Option Requester → Option InboxResponse
check_requester allowed req (some renee) = check_intent allowed req.intent
check_requester allowed req _ = none

abbrev pub gate_of : List Intent → Envelope → Option RejectReason → Option InboxResponse
gate_of allowed req (some reason) = some (rejected reason)
gate_of allowed req none = check_requester allowed req req.requester

-- The checks before the first effect: a refusal, or none.
unfoldable pub gate : (renee_allowed_intents : List Intent) → Envelope → Option InboxResponse
gate allowed req = gate_of allowed req (validate_envelope req)

unfoldable pub ensure_trace_id : (minted : Text) → Envelope → Envelope
ensure_trace_id minted req = record req { trace_id = some (or_else req.trace_id minted) }

-- The parts of `app.state`.
pub record InboxState (S : Type 0) : Type 0 where
  pub task_queue : Option Store
  pub dedup_store : DedupStore S

module _ {S : Type 0} (r : Redis S) (renee_allowed_intents : List Intent) where
  abbrev pub on_enqueue :
      Text → Envelope → InboxState S → Option Store → InboxResponse × InboxState S
  on_enqueue task_id req st none = (unique_violation, st)
  on_enqueue task_id req st (some queue) = (
    accepted task_id (text_or req.conversation_id task_id),
    record st { task_queue = some queue },
  )

  abbrev pub enqueue_request :
      (now : ℕ) (task_id minted : Text)
      → Envelope
      → Store
      → InboxState S
      → InboxResponse × InboxState S
  enqueue_request now task_id minted req queue st =
      on_enqueue task_id req st (enqueue now task_id (ensure_trace_id minted req) queue)

  abbrev pub on_prior :
      (now : ℕ) (task_id minted : Text)
      → Envelope
      → Store
      → Option Text
      → InboxState S
      → InboxResponse × InboxState S
  on_prior now task_id minted req queue (some (c ∷ prior)) st = (duplicate (c ∷ prior), st)
  on_prior now task_id minted req queue _ st = enqueue_request now task_id minted req queue st

  abbrev pub on_key :
      (now : ℕ) (task_id minted : Text)
      → Envelope
      → Store
      → InboxState S
      → Option Text
      → InboxResponse × InboxState S
  on_key now task_id minted req queue st none = enqueue_request now task_id minted req queue st
  on_key now task_id minted req queue st (some key) =
      let (prior, d) = check_and_set r now key req.client_task_id none st.dedup_store in
      on_prior now task_id minted req queue prior (record st { dedup_store = d })

  abbrev pub on_gate :
      (now : ℕ) (task_id minted : Text)
      → Envelope
      → Store
      → InboxState S
      → Option InboxResponse
      → InboxResponse × InboxState S
  on_gate now task_id minted req queue st (some refusal) = (refusal, st)
  on_gate now task_id minted req queue st none =
      on_key now task_id minted req queue st req.idempotency_key

  abbrev pub on_queue :
      (now : ℕ) (task_id minted : Text)
      → Envelope
      → InboxState S
      → Option Store
      → InboxResponse × InboxState S
  on_queue now task_id minted req st none = (queue_not_initialized, st)
  on_queue now task_id minted req st (some queue) =
      on_gate now task_id minted req queue st (gate renee_allowed_intents req)

  unfoldable pub post_inbox :
      (now : ℕ) (task_id minted : Text) → Envelope → InboxState S → InboxResponse × InboxState S
  post_inbox now task_id minted req st = on_queue now task_id minted req st st.task_queue
