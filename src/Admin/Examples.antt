-- ===== src/Admin/Examples.antt =====
-- The admin routes on a concrete task, with a toy signature in place of HMAC-SHA256.
use langgraph_agents.Base.{
  ◌≡◌, refl, inl, true, false, some, none, [], ◌∷◌, text, text_eq, contains_text, lower, split_once,
  Text_eq, starts_with, List, Option,
}
use langgraph_agents.Mcp.{is_allowed, allowlists, call}
use langgraph_agents.State.{errand_runner}
use langgraph_agents.Observability.{Groups}
use langgraph_agents.ErrandRunner.{Verdict, errand_runner_node, attempted, looks_like_ns_delete}
use langgraph_agents.ErrandRunner.Accepts.{IsExecutable}
use langgraph_agents.ErrandRunner.Examples.{hmac, request, waiting, world, token, grant-IsPlain}
use langgraph_agents.Admin.Costs.{CostEntry, summed, costs_today}
use langgraph_agents.Admin.Listing.{threads_of}
use langgraph_agents.Admin.{
  AdminApp, AdminGraph, approve_task, resume_with_verdict, on_admin_graph, on_interrupt,
  resume_minted, approval_token, mint_for, sign_target, sign,
}
use langgraph_agents.Admin.Approvals.{Serves, interrupt_of, approve-executes}
use langgraph_agents.Admin.Usage.{UsageRow, bump}
use langgraph_agents.Base.{Text}
use langgraph_agents.State.{Source, DataTier}
use langgraph_agents.Queue.Envelope.{Envelope}
use langgraph_agents.Queue.Store.{DlqRow}
use langgraph_agents.ErrandRunner.{two_person}
use langgraph_agents.ErrandRunner.Token.{Grant}
use langgraph_agents.Admin.Approvals.{grant_of}
use langgraph_agents.Admin.Smoke.{smoke_task_id, smoke_state, smoke_request, is_valid_label}

abbrev dead_envelope : Envelope
dead_envelope = record {
  client_task_id = text "w-7";
  source = Source.cli;
  content = text "restart the pod";
  zulip_user_id = none;
  trace_id = none;
  requester = none;
  intent = none;
  destructive = none;
  idempotency_key = none;
  ttl_seconds = none;
  max_attempts = none;
  data_tier = DataTier.internal;
  target_agent = none;
  conversation_id = none;
}

abbrev graph : AdminGraph
graph = record {
  interrupt = λ _. some (interrupt_of request);
  values = λ _. some waiting;
  resume = λ _ _. (some (text "done"), false);
}

abbrev app : AdminApp
app = record {
  fleet_graph = some graph;
  smoke_graph = none;
  task_queue = none;
  signing_key = some (text "k");
  approval_ttl_seconds = 3600;
}

app-Serves : Serves app world waiting request graph b'k' []
unfolding starts_with
app-Serves = record {
  production = refl;
  has_graph = refl;
  paused = refl;
  app_key = refl;
  same_key = refl;
}

waiting-IsExecutable : IsExecutable waiting request (text "arr-mcp") (text "add_movie")
unfolding is_allowed allowlists text_eq split_once looks_like_ns_delete contains_text lower
waiting-IsExecutable = record {
  requested = refl;
  undecided = refl;
  one_person = refl;
  target = refl;
  allowed = refl;
  real = refl;
  undoable = inl refl;
}

abbrev verdict : Verdict
verdict = record { granted = true; deferred = false; approval_token = some token }

approve_resumes : (approve_task hmac (text "n0") 5 app (text "t1")).resumed_with ≡ some verdict
unfolding approve_task resume_with_verdict on_admin_graph on_interrupt resume_minted approval_token
    mint_for sign_target sign split_once starts_with
approve_resumes = refl

approve-executes_example : errand_runner_node hmac world waiting (verdict ∷ []) ≡ (
  attempted
      (text "arr-mcp")
      (text "add_movie")
      (call errand_runner (text "arr-mcp") (text "add_movie") world.answer).0,
  (text "arr-mcp", text "add_movie") ∷ [],
)
approve-executes_example =
    approve-executes hmac (text "n0") 5 app world waiting request graph b'k' [] (text "arr-mcp")
      (text "add_movie") verdict [] app-Serves waiting-IsExecutable grant-IsPlain refl
      approve_resumes

abbrev served : Groups
served = record { p40 = true; spark = false; spark_coder = false; remote = true }

abbrev rows : List UsageRow
rows =
    record { agent = text "coder"; source = text "cli"; served_groups = some served; count = 3 }
    ∷ record { agent = text "triager"; source = text "zulip"; served_groups = none; count = 4 }
    ∷ []

abbrev dead : Text → DlqRow
dead t = record { id = t; envelope = dead_envelope; attempts = 3; last_error = text "boom" }

abbrev smoke_id : Text
smoke_id = smoke_task_id (text "smoke") (text "20260101T000000")

abbrev smoke_grant : Grant
smoke_grant =
    grant_of (smoke_state smoke_id) (smoke_request smoke_id) (text "smoke") (text "test_write")

smoke_label-valid : is_valid_label (text "smoke") ≡ true
unfolding is_valid_label
smoke_label-valid = refl

smoke-one_person : two_person (smoke_request smoke_id) ≡ false
unfolding looks_like_ns_delete lower contains_text starts_with
smoke-one_person = refl

-- The costs of two agents, of which the second is not named; the last line cannot be read.
abbrev cost_log : List (Option CostEntry)
cost_log =
    some (record { cost = 5; agent = some (text "coder") })
    ∷ some (record { cost = 2; agent = none })
    ∷ none
    ∷ []

costs_summed : (costs_today 20 100 (some cost_log)).spent ≡ 7
unfolding costs_today summed bump
costs_summed = refl

threads_listed :
    threads_of (some (text "t2") ∷ none ∷ some (text "t1") ∷ some (text "t2") ∷ [])
    ≡ text "t1" ∷ text "t2" ∷ []
unfolding threads_of text_eq
threads_listed = refl
