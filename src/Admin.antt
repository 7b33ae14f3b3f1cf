-- ===== src/Admin.antt =====
-- The routes of src/agents/api/admin.py that change the state of a task: the verdicts of the phone
-- (`approve`, `deny`), `cancel` and `timeout-tier`. A compiled graph is what it answers for a
-- thread: the value of its first interrupt, the state of its snapshot, and how a resume ends.
-- HMAC-SHA256 and the random nonce are arguments.
pub mod Approvals
pub mod Tasks
pub mod Smoke
pub mod Usage
pub mod Costs
pub mod Listing
pub mod Examples
use langgraph_agents.Base.{
  ℕ, ◌+◌, Bool, true, false, Option, none, some, [], ◌++◌, is_some, ◌&&◌, if◌then◌else◌, Text, text,
  split_once,
}
use langgraph_agents.State.{ActionClass, TimeoutTier, FleetState}
use langgraph_agents.ErrandRunner.{Verdict}
use langgraph_agents.ErrandRunner.Token.{Grant, mint}
use langgraph_agents.Queue.Store.{Store}
use langgraph_agents.Approval.{Response, is_smoke, reconcile}

-- The fields that the mint reads of `snapshot.tasks[0].interrupts[0].value`.
pub record InterruptValue : Type 0 where
  pub action_class : Option ActionClass
  pub target : Text

-- `interrupt` is none where the thread is not paused, `values` where it has no state.
pub record AdminGraph : Type 0 where
  pub interrupt : (thread_id : Text) → Option InterruptValue
  pub values : (thread_id : Text) → Option FleetState
  pub resume : (thread_id : Text) → Verdict → Option Text × Bool

pub record AdminApp : Type 0 where
  pub fleet_graph : Option AdminGraph
  pub smoke_graph : Option AdminGraph
  pub task_queue : Option Store
  pub signing_key : Option Text
  pub approval_ttl_seconds : ℕ

pub data AdminResponse : Type 0 where
  graph_not_initialized : AdminResponse  -- 503
  task_not_paused : AdminResponse  -- 409
  cannot_mint : AdminResponse  -- 422
  no_signing_key : AdminResponse  -- 503
  verdict : Response → AdminResponse

-- The response, the verdict that the graph was resumed with, and the queue afterwards.
pub record Outcome : Type 0 where
  pub response : AdminResponse
  pub resumed_with : Option Verdict
  pub task_queue : Option Store

abbrev pub refused : AdminResponse → Option Store → Outcome
refused response queue = record { response = response; resumed_with = none; task_queue = queue }

-- A token, or the refusal to mint one.
pub data Minted : Type 0 where
  minted : Text → Minted
  not_minted : AdminResponse → Minted

module _ (hmac : Text → Text → Text) (nonce : Text) where
  -- The key is there if it is set and not empty.
  sign : Text → ActionClass → Text → Text → Option Text → Minted
  sign task_id action_class server method none = not_minted no_signing_key
  sign task_id action_class server method (some []) = not_minted no_signing_key
  sign task_id action_class server method (some key) = minted (
      mint hmac key
        (record {
          task_id = task_id;
          action_class = action_class;
          server = server;
          method = method;
        })
        nonce)

  sign_target : Text → ActionClass → Option Text → Option (Text × Text) → Minted
  unfolding sign
  sign_target task_id action_class key none = not_minted cannot_mint
  sign_target task_id action_class key (some (server, method)) =
      sign task_id action_class server method key

  -- `if granted:` of `_resume_with_verdict`
  mint_for : Text → InterruptValue → Option Text → Minted
  unfolding sign_target
  mint_for task_id value key = elim value.action_class [
    | none ↦ not_minted cannot_mint
    | some action_class ↦ sign_target task_id action_class key (split_once b'.' value.target)
  ]

  approval_token : Bool → Text → InterruptValue → Option Text → Minted
  unfolding mint_for
  approval_token true task_id value key = mint_for task_id value key
  approval_token false task_id value key = minted []

  -- The resume and the reconciliation.
  resume_minted : ℕ → AdminApp → AdminGraph → Text → Bool → Minted → Outcome
  resume_minted now app graph t granted (not_minted response) = refused response app.task_queue
  resume_minted now app graph t granted (minted token) =
      let value : Verdict = record {
        granted = granted;
        deferred = false;
        approval_token = some token;
      } in
      let (output, paused) = graph.resume t value in
      let (response, after) =
        reconcile now app.approval_ttl_seconds t output paused app.task_queue in
      record { response = verdict response; resumed_with = some value; task_queue = after }

  on_interrupt : ℕ → AdminApp → AdminGraph → Text → Bool → Option InterruptValue → Outcome
  unfolding resume_minted approval_token
  on_interrupt now app graph t granted none = refused task_not_paused app.task_queue
  on_interrupt now app graph t granted (some value) =
      resume_minted now app graph t granted (approval_token granted t value app.signing_key)

  on_admin_graph : ℕ → AdminApp → Text → Bool → Option AdminGraph → Outcome
  unfolding on_interrupt
  on_admin_graph now app t granted none = refused graph_not_initialized app.task_queue
  on_admin_graph now app t granted (some graph) =
      on_interrupt now app graph t granted (graph.interrupt t)

  pub resume_with_verdict : ℕ → AdminApp → Text → Bool → Outcome
  unfolding on_admin_graph
  resume_with_verdict now app t granted =
      on_admin_graph now app t granted (if is_smoke t then app.smoke_graph else app.fleet_graph)

  pub approve_task : ℕ → AdminApp → Text → Outcome
  approve_task now app t = resume_with_verdict now app t true

  pub deny_task : ℕ → AdminApp → Text → Outcome
  deny_task now app t = resume_with_verdict now app t false

-- `cancel` and `timeout-tier`: the response, and the state written to the thread.
pub data Update : Type 0 where
  not_initialized : Update  -- 503
  not_found : Update  -- 404
  updated : FleetState → Update

abbrev on_values : (FleetState → FleetState) → Text → Option AdminGraph → Update
on_values f t none = not_initialized
on_values f t (some graph) = elim (graph.values t) [ none ↦ not_found | some s ↦ updated (f s) ]

abbrev pub cancelled : Text → FleetState → FleetState
cancelled reason s = record s {
  output = some (text "CANCELLED: " ++ reason);
  approval_granted = some false;
}

unfoldable pub cancel_task : AdminApp → (task_id reason : Text) → Update
cancel_task app t reason = on_values (cancelled reason) t app.fleet_graph

unfoldable pub set_timeout_tier : AdminApp → (task_id : Text) → TimeoutTier → Update
set_timeout_tier app t tier =
    on_values (λ s. record s { timeout_tier = some tier }) t app.fleet_graph
