-- ===== src/Router/Examples.antt =====
-- The scorer of router.py at concrete inputs.
use langgraph_agents.Base.{◌≡◌, refl, inl, true, false, some, text, arith}
use langgraph_agents.State.{coder}
use langgraph_agents.Context.{Context, Settings, unbound}
use langgraph_agents.Router.{
  score_route, capability, local_spark_coder, Reason, stay, go, is_claude_code_source,
}
use langgraph_agents.Router.Decisions.{score_route_iff}

-- The defaults of settings.py, with Claude switched on and a cap of five dollars a task.
abbrev pub settings : Settings
settings = record {
  enable_claude_api = true;
  anthropic_api_key = some (text "key");
  claude_model = text "claude-opus-4-7";
  degraded_mode_escalation_enabled = false;
  ollama_p40_url = text "http://p40";
  ollama_spark_url = text "http://spark";
  ollama_num_ctx_p40 = 8192;
  ollama_num_ctx_spark = 32768;
  cost_cap_per_task_usd = 5;
  cost_cap_per_agent_daily_usd = 20;
  cost_cap_global_daily_usd = 50;
  router_scorer_enabled = true;
  router_escalate_token_threshold_p40 = 6000;
  router_escalate_token_threshold_spark = 28000;
  router_escalate_on_destructive = false;
  router_escalate_on_cascade = false;
  router_cascade_threshold = 2;
  router_suppress_escalation_for_claude_code = true;
}

abbrev pub large_task : Context
large_task = record unbound { task_id = some (text "t1"); est_input_tokens = some 30000 }

large_escalates :
    score_route coder local_spark_coder settings large_task ≡ go Reason.context_overflow
unfolding score_route capability
large_escalates = refl

small_stays : score_route coder local_spark_coder settings unbound ≡ stay Reason.local_default
unfolding score_route capability
small_stays = refl

score_route_iff_example : (score_route coder local_spark_coder settings large_task).escalate ≡ true
unfolding is_claude_code_source
score_route_iff_example = (score_route_iff coder local_spark_coder settings large_task).1 (
  record { enabled = refl; on_local_group = refl; unrestricted = refl; not_offloaded = refl },
  inl (ground arith),
)
