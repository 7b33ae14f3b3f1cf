-- ===== src/Queue/Worker.antt =====
-- src/agents/queue/worker.py: what the worker does with one claim, and its throttled sweeps. The
-- compiled graph and its checkpointer are a parameter: how an invocation on a thread ends, and
-- which approval the snapshot of a thread shows afterwards (`get_pending_approval` of
-- src/agents/queue/approval_post.py answers none where the snapshot cannot be read). Webhook posts
-- and direct messages are recorded; whether they are delivered changes nothing.
pub mod Settles
pub mod Cards
pub mod Retries
pub mod Examples
use langgraph_agents.Base.{
  ℕ, zero, suc, ◌+◌, ◌-◌, Bool, true, false, Option, none, some, List, [], ◌∷◌, ◌++◌, ◌||◌, ltb,
  if◌then◌else◌, or_else, is_some, Text, text_or,
}
use langgraph_agents.State.{Source, DataTier, ApprovalRequest}
use langgraph_agents.Context.{Context}
use langgraph_agents.Router.{estimate_input_tokens}
use langgraph_agents.Observability.{Groups, Accumulators, served_groups_for, clear_task_provenance}
use langgraph_agents.Queue.Envelope.{Envelope, curate_approval_request}
use langgraph_agents.Queue.Store.{
  Store, Row, TaskClaim, Status, update, attempts_remaining, nack, dequeue, to_dlq,
  park_for_approval, expire_overdue,
}

pub data GraphResult : Type 0 where
  raised : (error : Text) → GraphResult
  returned : (output : Option Text) → GraphResult

pub record Graph : Type 0 where
  pub invoke : (thread_id : Text) → TaskClaim → GraphResult
  pub pending : (thread_id : Text) → Option ApprovalRequest

-- What the worker sends: the approval card, the completion card, the Zulip reply.
pub data Message : Type 0 where
  approval_post : (task_id content : Text) → ApprovalRequest → Message
  completion_post : (task_id content output : Text) → Message
  zulip_reply : (user_id : ℕ) → (output : Text) → Message

pub record Deployment : Type 0 where
  pub default_max_attempts : ℕ
  pub approval_ttl_seconds : ℕ
  pub approval_post_webhook : Bool
  pub completion_post_webhook : Bool

pub record State : Type 0 where
  pub store : Store
  pub acc : Accumulators
  pub sent : List Message

-- The context variables that `_handle_one` binds.
unfoldable pub bind_context : TaskClaim → Context
bind_context claim = record {
  task_id = some claim.task_id;
  data_tier = some claim.envelope.data_tier;
  source = some claim.envelope.source;
  est_input_tokens = some (estimate_input_tokens claim.envelope.content);
  destructive = some (or_else claim.envelope.destructive false);
  cascade_count = none;
}

unfoldable pub thread_id : TaskClaim → Text
thread_id claim = text_or claim.envelope.conversation_id claim.task_id

-- `ttl_seconds` counts only if it is truthy.
abbrev ttl_of : Option ℕ → ℕ → ℕ
ttl_of none default = default
ttl_of (some zero) default = default
ttl_of (some (suc n)) default = suc n

unfoldable pub approval_deadline : Deployment → ℕ → Envelope → ℕ
approval_deadline d now e = now + ttl_of e.ttl_seconds d.approval_ttl_seconds

-- An empty list of groups is written as NULL.
abbrev non_empty : Groups → Option Groups
non_empty g = if g.p40 || (g.spark || (g.spark_coder || g.remote)) then some g else none

unfoldable pub ack_with_result : ℕ → Text → Option Text → State → State
ack_with_result now t output st = record st {
  store = record st.store {
    queue =
        update t
          (λ r. record r {
            status = Status.done;
            result = output;
            served_groups = non_empty (served_groups_for (some t) st.acc);
            updated_at = now;
          })
          st.store.queue;
  };
  acc = clear_task_provenance (some t) st.acc;
}

abbrev is_zulip : Source → Bool
is_zulip Source.zulip = true
is_zulip _ = false

abbrev zulip_replies : Envelope → Text → List Message
zulip_replies e output = elim e.zulip_user_id [
  | none ↦ []
  | some zero ↦ []
  | some (suc n) ↦ if is_zulip e.source then zulip_reply (suc n) output ∷ [] else []
]

-- The messages of a finished task; an empty output sends none.
completions : Deployment → TaskClaim → Option Text → List Message
completions d claim none = []
completions d claim (some []) = []
completions d claim (some (c ∷ o)) =
    (if d.completion_post_webhook
      then completion_post claim.task_id claim.envelope.content (c ∷ o) ∷ []
      else [])
    ++ zulip_replies claim.envelope (c ∷ o)

-- The `except` branch.
failed : Deployment → ℕ → TaskClaim → Text → State → State
failed d now claim error st =
    if ltb 0 (attempts_remaining d.default_max_attempts claim)
    then record st { store = nack now claim.task_id st.store }
    else record st { store = to_dlq claim.task_id error st.store }

-- After the graph has returned: parked with the card sent, or done with the result.
park : Deployment → ℕ → TaskClaim → ApprovalRequest → State → State
park d now claim request st = record st {
  store =
      park_for_approval now claim.task_id (approval_deadline d now claim.envelope)
        (some (curate_approval_request request)) st.store;
  sent =
      st.sent
      ++ (if d.approval_post_webhook
          then approval_post claim.task_id claim.envelope.content request ∷ []
          else []);
}

finish : Deployment → ℕ → TaskClaim → Option Text → State → State
unfolding completions
finish d now claim output st =
    let acked = ack_with_result now claim.task_id output st in
    record acked { sent = acked.sent ++ completions d claim output }

settle : Deployment → ℕ → TaskClaim → GraphResult → Option ApprovalRequest → State → State
settle d now claim (raised error) pending st = failed d now claim error st
settle d now claim (returned output) (some request) st = park d now claim request st
settle d now claim (returned output) none st = finish d now claim output st

-- The graph runs on the thread of the conversation, the approval is looked up on the task's.
pub handle_one : Deployment → Graph → ℕ → TaskClaim → State → State
handle_one d graph now claim st =
    settle d now claim (graph.invoke (thread_id claim) claim) (graph.pending claim.task_id) st

-- `_maybe_sweep_expired`: the time of the last sweep, the store, and the number of tasks reported.
unfoldable pub maybe_sweep_expired : (interval now last : ℕ) → Store → ℕ × Store × List TaskClaim
maybe_sweep_expired interval now last s =
    if ltb (now - last) interval
    then (last, s, [])
    else (now, (expire_overdue now s).1, (expire_overdue now s).0)

-- One iteration of the loop of `run`, without its sweeps and its sleep.
abbrev taken : Deployment → Graph → ℕ → State → Option TaskClaim × Store → State
taken d graph now st (none, s) = record st { store = s }
taken d graph now st (some claim, s) = handle_one d graph now claim (record st { store = s })

unfoldable pub run_once :
    Deployment → Graph → (now timeout : ℕ) → (worker_id : Text) → State → State
run_once d graph now timeout worker st = taken d graph now st (dequeue now timeout worker st.store)

-- The iterations at the given instants.
unfoldable pub run :
    Deployment → Graph → List ℕ → (timeout : ℕ) → (worker_id : Text) → State → State
run d graph [] timeout worker st = st
run d graph (now ∷ times) timeout worker st =
    run d graph times timeout worker (run_once d graph now timeout worker st)
