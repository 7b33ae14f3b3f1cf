-- ===== src/Approval.antt =====
-- src/agents/api/approval.py: the verdict that resumes a paused task. A compiled graph is what it
-- answers for a thread: whether it is paused, and how a resume ends (the output, and whether the
-- thread is paused again).
pub mod Verdicts
pub mod Examples
use langgraph_agents.Base.{
  ℕ, ◌+◌, Bool, true, false, Option, none, some, not, if◌then◌else◌, Text, text, starts_with,
}
use langgraph_agents.ErrandRunner.{Verdict}
use langgraph_agents.Queue.Store.{Store, park_for_approval, resolve_approval}

pub data Reaction : Type 0 where
  approve reject defer : Reaction

-- `ApprovalRequest` of this module
pub record VerdictRequest : Type 0 where
  pub task_id : Text
  pub reaction : Reaction
  pub approval_token : Text
  pub actor : Text

pub data Response : Type 0 where
  not_initialized : Response  -- 503
  not_paused : Response  -- 409
  resumed : (output : Option Text) → Response
  complete : (output : Option Text) → Response

pub record PausedGraph : Type 0 where
  pub is_paused : (thread_id : Text) → Bool
  pub resume : (thread_id : Text) → Verdict → Option Text × Bool

-- `app.state`: each part may be missing.
pub record AppState : Type 0 where
  pub fleet_graph : Option PausedGraph
  pub smoke_graph : Option PausedGraph
  pub task_queue : Option Store

-- The response, the verdict that a graph was resumed with, and the queue afterwards.
pub record Handled : Type 0 where
  pub response : Response
  pub resumed_with : Option Verdict
  pub task_queue : Option Store

abbrev is_approve : Reaction → Bool
is_approve approve = true
is_approve _ = false

abbrev is_defer : Reaction → Bool
is_defer defer = true
is_defer _ = false

abbrev pub is_smoke : Text → Bool
is_smoke = starts_with (text "smoke-")

unfoldable pub resume_value : VerdictRequest → Verdict
resume_value req = record {
  granted = is_approve req.reaction;
  deferred = is_defer req.reaction;
  approval_token = some req.approval_token;
}

-- The reconciliation of the durable row, after the resume.
unfoldable pub reconcile :
    (now approval_ttl_seconds : ℕ)
    → Text
    → Option Text
    → (still_paused : Bool) → Option Store
    → Response × Option Store
reconcile now ttl t output paused none = (complete output, none)
reconcile now ttl t output paused (some queue) =
    if is_smoke t
    then (complete output, some queue)
    else if paused
    then (resumed output, some (park_for_approval now t (now + ttl) none queue))
    else (complete output, some (resolve_approval now t output queue))

-- From the chosen graph on.
unfoldable pub on_graph :
    (now approval_ttl_seconds : ℕ) → VerdictRequest → Option Store → Option PausedGraph → Handled
on_graph now ttl req queue none = record {
  response = not_initialized;
  resumed_with = none;
  task_queue = queue;
}
on_graph now ttl req queue (some graph) =
    if not (graph.is_paused req.task_id)
    then record { response = not_paused; resumed_with = none; task_queue = queue }
    else (let (output, paused) = graph.resume req.task_id (resume_value req) in
        let (response, after) = reconcile now ttl req.task_id output paused queue in
        record { response = response; resumed_with = some (resume_value req); task_queue = after })

unfoldable pub post_approval : (now approval_ttl_seconds : ℕ) → AppState → VerdictRequest → Handled
post_approval now ttl app req =
    on_graph now ttl req app.task_queue
      (if is_smoke req.task_id then app.smoke_graph else app.fleet_graph)
