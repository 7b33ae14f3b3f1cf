-- ===== src/Llm.antt =====
-- src/agents/llm.py: the per-agent model factory. `service_healthy` is the answer that the health
-- probe gives during the call; metrics callbacks and the temperature do not change which model is
-- handed out. The state is the accumulators and the recorded router decisions.
pub mod Routing
pub mod Gates
pub mod HealthData
pub mod Examples
use langgraph_agents.Base.{
  ℕ, Bool, true, false, Option, none, some, List, [], ◌∷◌, ◌&&◌, ◌||◌, not, leb, if◌then◌else◌,
  is_some, or_else, Text,
}
use langgraph_agents.State.{
  AgentId, DataTier, triager, historian, note_maker, researcher, coder, errand_runner, supervisor,
  reviewer, homelab_engineer, network_operator, storage_operator, smart_home_operator, ml_operator,
  observability_operator, health_tracker, property_coordinator, doc_writer, reporter, artist,
  security, auditor,
}
use langgraph_agents.Context.{Context, Settings}
use langgraph_agents.Redaction.{Destination, assert_emission_allowed, EmissionBlocked}
use langgraph_agents.Router.{
  ModelGroup, local_p40, local_spark, local_spark_coder, claude, RouteDecision, score_route,
  is_claude_code_source, is_claude_group,
}
use langgraph_agents.Observability.{
  Accumulators, global_claude_spend_usd, agent_daily_spend_usd, task_spend_usd, record_served_group,
}

pub data Service : Type 0 where
  p40 spark : Service

pub data CapKind : Type 0 where
  global_daily per_agent_daily per_task : CapKind

pub data LlmError : Type 0 where
  local_ollama_unavailable : (group : ModelGroup) (agent : AgentId) (failed : ModelGroup) → LlmError
  claude_disabled : LlmError
  no_api_key : LlmError
  emission_blocked : Option Text → LlmError
  cost_cap_hit : CapKind → (cap accumulated : ℕ) → AgentId → LlmError

-- The chat model that is handed out: the service and the group that serve it, and `num_ctx`.
pub data Model : Type 0 where
  chat_ollama : Service → (model effective_group : ModelGroup) (num_ctx : ℕ) → Model
  chat_anthropic : Text → Model

pub data Result : Type 0 where
  ok : Model → Result
  err : LlmError → Result

pub record World : Type 0 where
  pub settings : Settings
  pub ctx : Context
  pub today : ℕ
  pub service_healthy : Service → Bool

pub record Memory : Type 0 where
  pub acc : Accumulators
  pub decisions : List (AgentId × RouteDecision)

unfoldable pub agent_group : AgentId → ModelGroup
agent_group triager = local_p40
agent_group note_maker = local_p40
agent_group errand_runner = local_p40
agent_group property_coordinator = local_p40
agent_group health_tracker = local_p40
agent_group doc_writer = local_p40
agent_group coder = local_spark_coder
agent_group reviewer = local_spark_coder
agent_group _ = local_spark

abbrev pub is_health_tracker : AgentId → Bool
is_health_tracker health_tracker = true
is_health_tracker _ = false

abbrev pub wants_claude : Option ModelGroup → Bool
wants_claude (some claude) = true
wants_claude _ = false

abbrev pub claude_allowed : Settings → Bool
claude_allowed settings = settings.enable_claude_api && is_some settings.anthropic_api_key

unfoldable pub num_ctx_for_group : ModelGroup → Settings → ℕ
num_ctx_for_group local_p40 settings = settings.ollama_num_ctx_p40
num_ctx_for_group _ settings = settings.ollama_num_ctx_spark

abbrev recorded : World → ModelGroup → Memory → Memory
recorded w group m = record m { acc = record_served_group w.ctx.task_id group m.acc }

unfoldable pub build_ollama :
    World → Service → (model group : ModelGroup) → Memory → Result × Memory
unfolding num_ctx_for_group
build_ollama w service model group m =
    (ok (chat_ollama service model group (num_ctx_for_group group w.settings)), recorded w group m)

-- The three caps, in their order.
check_caps : World → AgentId → Memory → Option LlmError
check_caps w agent m =
    let s = w.settings in
    let total = global_claude_spend_usd m.acc in
    let daily = agent_daily_spend_usd w.today agent m.acc in
    let task = task_spend_usd w.ctx.task_id m.acc in
    if leb s.cost_cap_global_daily_usd total
    then some (cost_cap_hit global_daily s.cost_cap_global_daily_usd total agent)
    else if leb s.cost_cap_per_agent_daily_usd daily
    then some (cost_cap_hit per_agent_daily s.cost_cap_per_agent_daily_usd daily agent)
    else if is_some w.ctx.task_id && leb s.cost_cap_per_task_usd task
    then some (cost_cap_hit per_task s.cost_cap_per_task_usd task agent)
    else none

-- `assert_emission_allowed("claude")` and the caps, each of which raises.
claude_gates : World → AgentId → Memory → Option LlmError
unfolding check_caps
claude_gates w agent m =
    if not (is_some w.settings.anthropic_api_key)
    then some no_api_key
    else if not w.settings.enable_claude_api
    then some claude_disabled
    else elim (assert_emission_allowed Destination.claude none w.ctx) [
      | some blocked ↦ some (emission_blocked blocked.task_id)
      | none ↦ check_caps w agent m
    ]

unfoldable pub build_claude : World → AgentId → Memory → Result × Memory
unfolding claude_gates
build_claude w agent m = elim (claude_gates w agent m) [
  | some e ↦ (err e, m)
  | none ↦ (ok (chat_anthropic w.settings.claude_model), recorded w claude m)
]

-- The end of both local routes: degraded-mode escalation, or the error.
unavailable : World → AgentId → (group failed : ModelGroup) → Memory → Result × Memory
unavailable w agent group failed m =
    if w.settings.degraded_mode_escalation_enabled && claude_allowed w.settings
    then build_claude w agent m
    else (err (local_ollama_unavailable group agent failed), m)

route_p40 : World → AgentId → ModelGroup → ModelGroup → Memory → Result × Memory
unfolding unavailable build_ollama
route_p40 w agent group failed m =
    if w.service_healthy p40
    then build_ollama w p40 local_p40 local_p40 m
    else unavailable w agent group failed m

-- `group in ("local-spark", "local-spark-coder")`
route_spark : World → AgentId → ModelGroup → Memory → Result × Memory
unfolding route_p40
route_spark w agent group m =
    if w.service_healthy spark
    then build_ollama w spark group group m
    else route_p40 w agent group group m

route_claude : World → AgentId → Memory → Result × Memory
route_claude w agent m =
    if not (claude_allowed w.settings)
    then (err (if not w.settings.enable_claude_api then claude_disabled else no_api_key), m)
    else build_claude w agent m

route_group : World → AgentId → ModelGroup → Memory → Result × Memory
unfolding route_claude route_spark
route_group w agent claude m = route_claude w agent m
route_group w agent local_p40 m = route_p40 w agent local_p40 local_p40 m
route_group w agent group m = route_spark w agent group m

-- The arguments of a call after the health-tracker pin.
pinned : AgentId → Option ModelGroup → Bool → Option ModelGroup × Bool
pinned agent override escalate =
    if is_health_tracker agent && (escalate || wants_claude override)
    then (some local_p40, false)
    else (override, escalate)

-- `escalate` after the scorer and the Claude-Code guard.
escalation : World → RouteDecision → Bool → Bool
escalation w decision escalate =
    let wanted = if decision.escalate && claude_allowed w.settings then true else escalate in
    if wanted && is_claude_code_source w.settings w.ctx then false else wanted

after_pin : World → AgentId → ModelGroup → Bool → Memory → Result × Memory
after_pin w agent group escalate m =
    let decision = score_route agent group w.settings w.ctx in
    let m' = record m { decisions = (agent, decision) ∷ m.decisions } in
    if escalation w decision escalate && claude_allowed w.settings
    then build_claude w agent m'
    else route_group w agent group m'

pub llm : World → AgentId → Option ModelGroup → Bool → Memory → Result × Memory
unfolding pinned
llm w agent override escalate m =
    let (override', escalate') = pinned agent override escalate in
    after_pin w agent (or_else override' (agent_group agent)) escalate' m
