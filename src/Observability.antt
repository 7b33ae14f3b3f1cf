-- ===== src/Observability.antt =====
-- src/agents/observability.py: the in-process cost accumulators and the model-group provenance.
-- A UTC day is its ordinal, so that `date.fromisoformat` of a stored key is the identity. Costs
-- are numbers of one fixed unit. The counters that nothing reads back are not modelled.
pub mod Spend
pub mod Callback
pub mod Examples
use langgraph_agents.Base.{
  ℕ, zero, suc, ◌+◌, ◌-◌, ◌*◌, Bool, true, false, Option, none, some, List, [], ◌∷◌, ltb, ◌==◌,
  if◌then◌else◌, or_else, Text, text, starts_with, Eq, get, put, remove, Text_eq, pair_eq, ℕ_eq,
}
use langgraph_agents.State.{AgentId, AgentId_eq}
use langgraph_agents.Router.{ModelGroup, local_p40, local_spark, local_spark_coder, claude}

-- A set of model groups.
pub record Groups : Type 0 where
  pub p40 : Bool
  pub spark : Bool
  pub spark_coder : Bool
  pub remote : Bool

abbrev pub no_groups : Groups
no_groups = record { p40 = false; spark = false; spark_coder = false; remote = false }

abbrev pub add_group : Groups → ModelGroup → Groups
add_group s local_p40 = record s { p40 = true }
add_group s local_spark = record s { spark = true }
add_group s local_spark_coder = record s { spark_coder = true }
add_group s claude = record s { remote = true }

abbrev pub has_group : Groups → ModelGroup → Bool
has_group s local_p40 = s.p40
has_group s local_spark = s.spark
has_group s local_spark_coder = s.spark_coder
has_group s claude = s.remote

-- The keys of `_agent_daily_spend`.
abbrev pub AgentDay : Type 0
AgentDay = AgentId × ℕ

-- The module's dicts, and the sum of the `group="claude"` samples of the cost counter.
pub record Accumulators : Type 0 where
  pub task_spend : List (Text × ℕ)
  pub agent_daily_spend : List (AgentDay × ℕ)
  pub task_served_groups : List (Text × Groups)
  pub claude_cost : ℕ

abbrev pub retention_days : ℕ
retention_days = 7

-- `day < today - 7`
abbrev pub is_stale : ℕ → ℕ → Bool
is_stale today day = ltb (day + retention_days) today

unfoldable pub evict : ℕ → List (AgentDay × ℕ) → List (AgentDay × ℕ)
evict today [] = []
evict today (((a, day), v) ∷ d) =
    let rest = evict today d in if is_stale today day then rest else ((a, day), v) ∷ rest

unfoldable pub add_task_spend : Option Text → ℕ → List (Text × ℕ) → List (Text × ℕ)
add_task_spend none cost d = d
add_task_spend (some t) cost d = put d t (or_else (get d t) 0 + cost)

unfoldable pub record_task_spend : ℕ → Option Text → AgentId → ℕ → Accumulators → Accumulators
record_task_spend today task_id agent cost acc =
    if cost == 0
    then acc
    else (let daily = evict today acc.agent_daily_spend in
        record acc {
          task_spend = add_task_spend task_id cost acc.task_spend;
          agent_daily_spend =
              put daily (agent, today) (or_else (get daily (agent, today)) 0 + cost);
        })

unfoldable pub task_spend_usd : Option Text → Accumulators → ℕ
task_spend_usd none acc = 0
task_spend_usd (some t) acc = or_else (get acc.task_spend t) 0

unfoldable pub agent_daily_spend_usd : ℕ → AgentId → Accumulators → ℕ
agent_daily_spend_usd today agent acc = or_else (get acc.agent_daily_spend (agent, today)) 0

abbrev pub global_claude_spend_usd : Accumulators → ℕ
global_claude_spend_usd acc = acc.claude_cost

-- The cost part of `record_llm_call`: the counter, then the accumulators.
abbrev pub counted : ModelGroup → ℕ → ℕ
counted claude cost = cost
counted _ cost = 0

unfoldable pub record_llm_call :
    ℕ → Option Text → AgentId → ModelGroup → ℕ → Accumulators → Accumulators
record_llm_call today task_id agent group cost acc =
    if cost == 0
    then acc
    else record_task_spend today task_id agent cost
        (record acc { claude_cost = acc.claude_cost + counted group cost })

unfoldable pub record_served_group : Option Text → ModelGroup → Accumulators → Accumulators
record_served_group none group acc = acc
record_served_group (some t) group acc = record acc {
  task_served_groups =
      put acc.task_served_groups t
        (add_group (or_else (get acc.task_served_groups t) no_groups) group);
}

unfoldable pub served_groups_for : Option Text → Accumulators → Groups
served_groups_for none acc = no_groups
served_groups_for (some t) acc = or_else (get acc.task_served_groups t) no_groups

unfoldable pub clear_task_provenance : Option Text → Accumulators → Accumulators
clear_task_provenance none acc = acc
clear_task_provenance (some t) acc = record acc {
  task_served_groups = remove acc.task_served_groups t;
}

-- `_ANTHROPIC_PRICING`, in hundredths of a dollar per million tokens, in the order of the source.
abbrev pub anthropic_pricing : List (Text × ℕ × ℕ)
anthropic_pricing =
    (text "claude-opus-4", 1500, 7500)
    ∷ (text "claude-opus-3", 1500, 7500)
    ∷ (text "claude-sonnet-4", 300, 1500)
    ∷ (text "claude-sonnet-3-7", 300, 1500)
    ∷ (text "claude-sonnet-3-5", 300, 1500)
    ∷ (text "claude-haiku-3-5", 80, 400)
    ∷ (text "claude-haiku-3", 25, 125)
    ∷ []

price : List (Text × ℕ × ℕ) → Text → ℕ → ℕ → ℕ
price [] model tokens_in tokens_out = 0
price ((prefix, in_price, out_price) ∷ rows) model tokens_in tokens_out =
    if starts_with prefix model
    then tokens_in * in_price + tokens_out * out_price
    else price rows model tokens_in tokens_out

-- `_compute_anthropic_cost`, in units of 10⁻⁸ dollars, so that the division is exact.
unfoldable pub compute_anthropic_cost : Text → ℕ → ℕ → ℕ
unfolding price
compute_anthropic_cost = price anthropic_pricing
