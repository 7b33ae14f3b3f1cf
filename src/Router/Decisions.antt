-- ===== src/Router/Decisions.antt =====
-- When the scorer escalates, and that its token estimate never hides an overflow.
use langgraph_agents.Base.{◌*◌, ◌≤◌, ◌<◌, ◌≡◌, ◌⊎◌, ◌↔◌, true, false, or_else, length, Text, arith}
use langgraph_agents.State.{AgentId}
use langgraph_agents.Context.{Context, Settings}
use langgraph_agents.Router.{
  ModelGroup, is_claude_group, is_restricted, threshold, estimate_input_tokens, score_route,
  is_claude_code_source,
}

-- What makes a task worth escalating: its size, or one of the two opt-in triggers.
abbrev pub Trigger : ModelGroup → Settings → Context → Type 0
Trigger g s c =
    (threshold g s < or_else c.est_input_tokens 0)
    ⊎ (s.router_escalate_on_destructive ≡ true) × (or_else c.destructive false ≡ true)
    ⊎ (s.router_escalate_on_cascade ≡ true)
      × (s.router_cascade_threshold ≤ or_else c.cascade_count 0)

-- No pin keeps the task on the local groups.
pub record IsEscalatable (g : ModelGroup) (s : Settings) (c : Context) : Type 0 where
  pub enabled : s.router_scorer_enabled ≡ true
  pub on_local_group : is_claude_group g ≡ false
  pub unrestricted : is_restricted c.data_tier ≡ false
  pub not_offloaded : is_claude_code_source s c ≡ false

module _ (a : AgentId) (g : ModelGroup) (s : Settings) (c : Context) where
  pub score_route-IsEscalatable : (score_route a g s c).escalate ≡ true → IsEscalatable g s c
  unfolding score_route is_claude_code_source
  score_route-IsEscalatable h = ground arith

  pub score_route-Trigger : (score_route a g s c).escalate ≡ true → Trigger g s c
  unfolding score_route
  score_route-Trigger h = ground arith

  pub escalate_of_Trigger :
      IsEscalatable g s c → Trigger g s c → (score_route a g s c).escalate ≡ true
  unfolding score_route is_claude_code_source
  escalate_of_Trigger e t = ground arith

-- The scorer asks for Claude exactly when nothing pins the task to the local groups (the scorer is
-- on, the group is local, the data is not restricted, and the task is no guarded Claude-Code
-- offload) and one of the three triggers holds.
pub score_route_iff :
    (a : AgentId) (g : ModelGroup) (s : Settings) (c : Context)
    → ((score_route a g s c).escalate ≡ true) ↔ (IsEscalatable g s c × Trigger g s c)
score_route_iff a g s c = (
  λ h. (score_route-IsEscalatable a g s c h, score_route-Trigger a g s c h),
  λ p. escalate_of_Trigger a g s c p.0 p.1,
)

-- The estimate over-counts: at four characters to a token it is above the length of the content.
pub length-lt-estimate : (t : Text) → length t < 4 * estimate_input_tokens t
unfolding estimate_input_tokens
length-lt-estimate t = omega arith
