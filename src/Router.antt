-- ===== src/Router.antt =====
-- src/agents/router.py: the deterministic local-or-Claude scorer.
pub mod Decisions
pub mod Examples
use langgraph_agents.Base.{
  ℕ, ◌+◌, ◌/◌, Bool, true, false, Option, none, some, ◌&&◌, not, ltb, leb, if◌then◌else◌, or_else,
  length, Text,
}
use langgraph_agents.State.{AgentId, DataTier, Source}
use langgraph_agents.Context.{Context, Settings}

-- `ModelGroup` of llm.py
pub data ModelGroup : Type 0 where
  local_p40 local_spark local_spark_coder claude : ModelGroup

pub data Reason : Type 0 where
  local_default context_overflow restricted_pinned_local scorer_disabled : Reason
  destructive_escalation cascade_escalation claude_code_origin : Reason

pub record RouteDecision : Type 0 where
  pub escalate : Bool
  pub reason : Reason

abbrev pub is_claude_code : Option Source → Bool
is_claude_code (some Source.claude_code) = true
is_claude_code _ = false

abbrev pub is_restricted : Option DataTier → Bool
is_restricted (some DataTier.restricted) = true
is_restricted _ = false

abbrev pub is_claude_group : ModelGroup → Bool
is_claude_group claude = true
is_claude_group _ = false

abbrev pub is_p40_group : ModelGroup → Bool
is_p40_group local_p40 = true
is_p40_group _ = false

unfoldable pub is_claude_code_source : Settings → Context → Bool
is_claude_code_source settings ctx =
    if not settings.router_suppress_escalation_for_claude_code
    then false
    else is_claude_code ctx.source

abbrev pub chars_per_token : ℕ
chars_per_token = 4

abbrev pub prompt_overhead_tokens : ℕ
prompt_overhead_tokens = 2000

unfoldable pub estimate_input_tokens : Text → ℕ
estimate_input_tokens content = length content / chars_per_token + prompt_overhead_tokens

abbrev stay : Reason → RouteDecision
stay r = record { escalate = false; reason = r }

abbrev go : Reason → RouteDecision
go r = record { escalate = true; reason = r }

abbrev pub threshold : ModelGroup → Settings → ℕ
threshold group settings =
    if is_p40_group group
    then settings.router_escalate_token_threshold_p40
    else settings.router_escalate_token_threshold_spark

-- The tests of `score_route` after the early returns: the overflow and the two opt-in triggers.
unfoldable pub capability : ModelGroup → Settings → Context → RouteDecision
capability group settings ctx =
    if ltb (threshold group settings) (or_else ctx.est_input_tokens 0)
    then go context_overflow
    else if settings.router_escalate_on_destructive && or_else ctx.destructive false
    then go destructive_escalation
    else if settings.router_escalate_on_cascade
        && leb settings.router_cascade_threshold (or_else ctx.cascade_count 0)
    then go cascade_escalation
    else stay local_default

unfoldable pub score_route : AgentId → ModelGroup → Settings → Context → RouteDecision
unfolding capability
score_route agent_id group settings ctx =
    if not settings.router_scorer_enabled
    then stay scorer_disabled
    else if is_claude_group group
    then stay local_default
    else if is_restricted ctx.data_tier
    then stay restricted_pinned_local
    else if settings.router_suppress_escalation_for_claude_code && is_claude_code ctx.source
    then stay claude_code_origin
    else capability group settings ctx
