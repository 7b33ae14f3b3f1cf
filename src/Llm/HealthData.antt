-- ===== src/Llm/HealthData.antt =====
-- The health-tracker pin of llm.py: what it stops, and what it lets through.
use langgraph_agents.Base.{◌≡◌, ◌⊎◌, ◌↔◌, true, false, Bool, Option, some, none, arith, ◌∷◌}
use langgraph_agents.State.{AgentId, health_tracker}
use langgraph_agents.Router.{ModelGroup, local_p40, claude, score_route}
use langgraph_agents.Router.Decisions.{score_route-IsEscalatable}
use langgraph_agents.Redaction.{assert_emission_allowed}
use langgraph_agents.Llm.{
  World, Memory, ok, chat_anthropic, p40, agent_group, build_claude, claude_gates, build_ollama,
  route_group, after_pin, escalation, llm,
}
use langgraph_agents.Llm.Gates.{ClaudePermitted, IsClaude, llm-ClaudePermitted}

-- An explicit `escalate=True` or `group_override="claude"` for the health-tracker is the same call
-- as one with neither argument.
pub explicit_request_ignored :
    (w : World) (m : Memory) (override : Option ModelGroup) (escalate : Bool)
    → (escalate ≡ true) ⊎ (override ≡ some claude)
    → llm w health_tracker override escalate m ≡ llm w health_tracker none false m
unfolding llm agent_group
explicit_request_ignored w m override escalate h = ground arith

module _ (w : World) (a : AgentId) (m : Memory) where
  gates_of_ClaudePermitted : ClaudePermitted w a m.acc → claude_gates w a m ≡ none
  unfolding claude_gates assert_emission_allowed
  gates_of_ClaudePermitted h = ground (arith, h.below_task)

  build_claude_of_ClaudePermitted :
      ClaudePermitted w a m.acc
      → (build_claude w a m).0 ≡ ok (chat_anthropic w.settings.claude_model)
  unfolding build_claude
  build_claude_of_ClaudePermitted h = ground (arith, gates_of_ClaudePermitted h)

-- The two ways to Claude of a call that asks for nothing: the scorer, and the degraded mode.
abbrev pub Leak : World → Type 0
Leak w =
    ((score_route health_tracker local_p40 w.settings w.ctx).escalate ≡ true)
    ⊎ (w.service_healthy p40 ≡ false) × (w.settings.degraded_mode_escalation_enabled ≡ true)

module _ (w : World) (m : Memory) where
  Leak-of_claude : IsClaude (llm w health_tracker none false m).0 → Leak w
  unfolding llm after_pin agent_group escalation route_group build_ollama
  Leak-of_claude h = ground arith

  IsClaude-of_Leak :
      ClaudePermitted w health_tracker m.acc
      → Leak w
      → IsClaude (llm w health_tracker none false m).0
  unfolding llm after_pin agent_group escalation route_group build_ollama
  IsClaude-of_Leak h l =
      let decision = score_route health_tracker local_p40 w.settings w.ctx in
      let m' = record m { decisions = (health_tracker, decision) ∷ m.decisions } in
      ground (
        arith,
        build_claude_of_ClaudePermitted w health_tracker m' h,
        score_route-IsEscalatable health_tracker local_p40 w.settings w.ctx,
      )

-- A call for the health-tracker that asks for nothing is handed Claude exactly when the general
-- gates for Claude hold and either the router scorer escalates the task or the P40 service is down
-- under degraded-mode escalation: the pin looks at the explicit arguments only.
pub health_tracker-IsClaude_iff :
    (w : World) (m : Memory)
    → IsClaude (llm w health_tracker none false m).0
      ↔ (ClaudePermitted w health_tracker m.acc × Leak w)
health_tracker-IsClaude_iff w m = (
  λ h. (llm-ClaudePermitted w health_tracker none false m h, Leak-of_claude w m h),
  λ p. IsClaude-of_Leak w m p.0 p.1,
)
