-- ===== src/Context.antt =====
-- The structlog context variables of one task, which the router, the emission gate and the cost
-- caps read, and the fields of src/agents/settings.py that they use. Money is counted in a fixed
-- unit (micro-dollars), so that no rounding of floats is modelled.
use langgraph_agents.Base.{ℕ, Bool, Option, none, Text}
use langgraph_agents.State.{Source, DataTier}

-- Every variable may be unbound.
pub record Context : Type 0 where
  pub task_id : Option Text
  pub data_tier : Option DataTier
  pub source : Option Source
  pub est_input_tokens : Option ℕ
  pub destructive : Option Bool
  pub cascade_count : Option ℕ

abbrev pub unbound : Context
unbound = record {
  task_id = none;
  data_tier = none;
  source = none;
  est_input_tokens = none;
  destructive = none;
  cascade_count = none;
}

pub record Settings : Type 0 where
  pub enable_claude_api : Bool
  pub anthropic_api_key : Option Text
  pub claude_model : Text
  pub degraded_mode_escalation_enabled : Bool
  pub ollama_p40_url : Text
  pub ollama_spark_url : Text
  pub ollama_num_ctx_p40 : ℕ
  pub ollama_num_ctx_spark : ℕ
  pub cost_cap_per_task_usd : ℕ
  pub cost_cap_per_agent_daily_usd : ℕ
  pub cost_cap_global_daily_usd : ℕ
  pub router_scorer_enabled : Bool
  pub router_escalate_token_threshold_p40 : ℕ
  pub router_escalate_token_threshold_spark : ℕ
  pub router_escalate_on_destructive : Bool
  pub router_escalate_on_cascade : Bool
  pub router_cascade_threshold : ℕ
  pub router_suppress_escalation_for_claude_code : Bool
