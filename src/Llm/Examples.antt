-- ===== src/Llm/Examples.antt =====
-- The model factory of llm.py at concrete calls.
use langgraph_agents.Base.{◌≡◌, refl, true, false, none, [], text, Bool, get}
use langgraph_agents.State.{coder, health_tracker}
use langgraph_agents.Router.{local_p40, score_route, capability, is_claude_code_source}
use langgraph_agents.Router.Examples.{settings, large_task}
use langgraph_agents.Observability.{agent_daily_spend_usd, task_spend_usd}
use langgraph_agents.Redaction.{assert_emission_allowed}
use langgraph_agents.Llm.{
  World, Memory, Service, p40, spark, llm, pinned, after_pin, escalation, agent_group, build_claude,
  claude_gates, check_caps, route_group, route_spark, route_p40, build_ollama, chat_ollama,
  num_ctx_for_group, ok, chat_anthropic,
}
use langgraph_agents.Llm.Gates.{llm-ClaudePermitted, ClaudePermitted}
use langgraph_agents.Llm.Routing.{llm-Records, Records}
use langgraph_agents.Llm.HealthData.{health_tracker-IsClaude_iff, Leak}

abbrev pub only_p40 : Service → Bool
only_p40 p40 = true
only_p40 spark = false

abbrev pub nothing_spent : Memory
nothing_spent = record {
  acc = record {
    task_spend = [];
    agent_daily_spend = [];
    task_served_groups = [];
    claude_cost = 0;
  };
  decisions = [];
}

abbrev pub large : World
large = record { settings = settings; ctx = large_task; today = 100; service_healthy = only_p40 }

abbrev pub small : World
small = record large { ctx = record large_task { est_input_tokens = none } }

large_claude :
    (llm large coder none false nothing_spent).0 ≡ ok (chat_anthropic (text "claude-opus-4-7"))
unfolding llm pinned after_pin escalation agent_group build_claude claude_gates check_caps
    score_route capability is_claude_code_source assert_emission_allowed agent_daily_spend_usd
    task_spend_usd get
large_claude = refl

small_local :
    (llm small coder none false nothing_spent).0 ≡ ok (chat_ollama p40 local_p40 local_p40 8192)
unfolding llm pinned after_pin escalation agent_group score_route capability is_claude_code_source
    route_group route_spark route_p40 build_ollama num_ctx_for_group
small_local = refl

llm-ClaudePermitted_example : ClaudePermitted large coder nothing_spent.acc
unfolding llm pinned after_pin escalation agent_group build_claude claude_gates check_caps
    score_route capability is_claude_code_source assert_emission_allowed agent_daily_spend_usd
    task_spend_usd get
llm-ClaudePermitted_example = llm-ClaudePermitted large coder none false nothing_spent tt

llm-Records_example : Records small nothing_spent.acc (llm small coder none false nothing_spent)
llm-Records_example = llm-Records small coder none false nothing_spent

-- The health-tracker is handed Claude for a large task.
health_tracker-IsClaude_iff_example :
    ClaudePermitted large health_tracker nothing_spent.acc × Leak large
unfolding llm pinned after_pin escalation agent_group build_claude claude_gates check_caps
    score_route capability is_claude_code_source assert_emission_allowed agent_daily_spend_usd
    task_spend_usd get
health_tracker-IsClaude_iff_example = (health_tracker-IsClaude_iff large nothing_spent).0 tt
