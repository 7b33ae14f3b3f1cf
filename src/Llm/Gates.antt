-- ===== src/Llm/Gates.antt =====
-- What has to hold whenever llm.py hands out a Claude model.
use langgraph_agents.Base.{
  ◌<◌, ◌∷◌, Bool-cases, inl, inr, ◌≡◌, ◌⊎◌, true, false, Option, none, is_some, arith, Bool, ◌&&◌,
}
use langgraph_agents.State.{AgentId}
use langgraph_agents.Router.{ModelGroup, is_restricted, claude, score_route}
use langgraph_agents.Redaction.{assert_emission_allowed}
use langgraph_agents.Observability.{
  Accumulators, global_claude_spend_usd, agent_daily_spend_usd, task_spend_usd,
}
use langgraph_agents.Llm.{
  World, Memory, Result, ok, chat_anthropic, claude_allowed, build_claude, build_ollama,
  route_group, after_pin, escalation, claude_gates, llm,
}

abbrev pub IsClaude : Result → Type 0
IsClaude (ok (chat_anthropic _)) = Unit
IsClaude _ = ⊥

-- The facts that the gates of `_build_claude` establish.
pub record ClaudePermitted (w : World) (a : AgentId) (acc : Accumulators) : Type 0 where
  pub switched_on : w.settings.enable_claude_api ≡ true
  pub has_key : is_some w.settings.anthropic_api_key ≡ true
  pub unrestricted : is_restricted w.ctx.data_tier ≡ false
  pub below_global : global_claude_spend_usd acc < w.settings.cost_cap_global_daily_usd
  pub below_daily : agent_daily_spend_usd w.today a acc < w.settings.cost_cap_per_agent_daily_usd
  pub below_task :
      (is_some w.ctx.task_id ≡ false)
      ⊎ (task_spend_usd w.ctx.task_id acc < w.settings.cost_cap_per_task_usd)

module _ (w : World) (a : AgentId) (m : Memory) where
  gates-ClaudePermitted : claude_gates w a m ≡ none → ClaudePermitted w a m.acc
  unfolding claude_gates assert_emission_allowed
  gates-ClaudePermitted h = ground arith

  build_claude-ClaudePermitted : IsClaude (build_claude w a m).0 → ClaudePermitted w a m.acc
  unfolding build_claude
  build_claude-ClaudePermitted h = ground (arith, gates-ClaudePermitted)

  route_group-ClaudePermitted :
      (g : ModelGroup) → IsClaude (route_group w a g m).0 → ClaudePermitted w a m.acc
  unfolding route_group build_ollama
  route_group-ClaudePermitted claude h = ground (arith, build_claude-ClaudePermitted)
  route_group-ClaudePermitted _ h = ground (arith, build_claude-ClaudePermitted)

after_pin-ClaudePermitted :
    (w : World) (a : AgentId) (g : ModelGroup) (escalate : Bool) (m : Memory)
    → IsClaude (after_pin w a g escalate m).0
    → ClaudePermitted w a m.acc
unfolding after_pin
after_pin-ClaudePermitted w a g escalate m h =
    let m' = record m { decisions = (a, score_route a g w.settings w.ctx) ∷ m.decisions } in
    elim (Bool-cases
      (escalation w (score_route a g w.settings w.ctx) escalate && claude_allowed w.settings)) [
        | inl yes_claude ↦ build_claude-ClaudePermitted w a m' (rw yes_claude at h)
        | inr other ↦ route_group-ClaudePermitted w a m' g (rw other at h)
      ]

-- Whatever the route, a Claude model is handed out only where the master switch is on, a key is
-- set, the task's data is not restricted, and the process's, the agent's and, where a task is bound,
-- the task's spend is below its cap.
pub llm-ClaudePermitted :
    (w : World) (a : AgentId) (override : Option ModelGroup) (escalate : Bool) (m : Memory)
    → IsClaude (llm w a override escalate m).0
    → ClaudePermitted w a m.acc
unfolding llm
llm-ClaudePermitted w a override escalate m h = after_pin-ClaudePermitted w a _ _ m h
