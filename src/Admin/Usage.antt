-- ===== src/Admin/Usage.antt =====
-- The completion counts of src/agents/api/admin.py (`GET /admin/cost`). The grouped rows are what
-- the database answers; a dict of counts is an association list, whose order nothing reads.
pub mod Totals
use langgraph_agents.Base.{
  ℕ, ◌+◌, Bool, true, false, Option, none, some, List, [], ◌∷◌, ◌||◌, ltb, if◌then◌else◌, or_else,
  Text, text, Eq, get, put, Text_eq,
}
use langgraph_agents.State.{AgentId, agent_of_name}
use langgraph_agents.Router.{ModelGroup, local_p40, local_spark, local_spark_coder, claude}
use langgraph_agents.Observability.{Groups}
use langgraph_agents.Llm.{agent_group}

-- One row of the grouped SELECT.
pub record UsageRow : Type 0 where
  pub agent : Text
  pub source : Text
  pub served_groups : Option Groups
  pub count : ℕ

abbrev pub Counts : Type 0
Counts = List (Text × ℕ)

-- d[k] = d.get(k, 0) + n
unfoldable pub bump : Text → ℕ → Counts → Counts
bump k n d = put d k (or_else (get d k) 0 + n)

unfoldable pub group_name : ModelGroup → Text
group_name local_p40 = text "local-p40"
group_name local_spark = text "local-spark"
group_name local_spark_coder = text "local-spark-coder"
group_name claude = text "claude"

abbrev pub unknown : Text
unknown = text "(unknown)"

abbrev pub escalated : Text
escalated = text "escalated"

abbrev pub local : Text
local = text "local"

-- `if served`: a list of groups that is not empty.
abbrev pub any_group : Groups → Bool
any_group g = g.remote || (g.spark_coder || (g.spark || g.p40))

-- `_GROUP_PRECEDENCE`
unfoldable pub representative_group : Groups → ModelGroup
representative_group g =
    if g.remote
    then claude
    else if g.spark_coder
    then local_spark_coder
    else if g.spark
    then local_spark
    else local_p40

abbrev pub tier_of : Bool → Text
tier_of true = escalated
tier_of false = local

abbrev pub is_claude : ModelGroup → Bool
is_claude claude = true
is_claude _ = false

-- The key in `by_group` and the key in `by_tier`.
abbrev pub configured_keys : Option AgentId → Text × Text
configured_keys none = (unknown, unknown)
configured_keys (some a) = (group_name (agent_group a), tier_of (is_claude (agent_group a)))

abbrev pub keys_of : Option Groups → Option AgentId → Text × Text
keys_of none agent = configured_keys agent
keys_of (some g) agent =
    if any_group g
    then (group_name (representative_group g), tier_of g.remote)
    else configured_keys agent

unfoldable pub row_keys : UsageRow → Text × Text
row_keys r = keys_of r.served_groups (agent_of_name r.agent)

unfoldable pub group_breakdown : List UsageRow → Counts → Counts → Counts × Counts
group_breakdown [] by_group by_tier = (by_group, by_tier)
group_breakdown (r ∷ rows) by_group by_tier =
    group_breakdown rows (bump (row_keys r).0 r.count by_group)
      (bump (row_keys r).1 r.count by_tier)

pub record UsageStats : Type 0 where
  pub days : ℕ
  pub total_tasks : ℕ
  pub by_agent : Counts
  pub by_source : Counts
  pub by_group : Counts
  pub by_tier : Counts

-- The loop over the rows.
unfoldable pub tallied : (UsageRow → Text) → List UsageRow → Counts → Counts
tallied key [] d = d
tallied key (r ∷ rows) d = tallied key rows (bump (key r) r.count d)

unfoldable pub sum_counts : List UsageRow → ℕ
sum_counts [] = 0
sum_counts (r ∷ rows) = r.count + sum_counts rows

pub data UsageResponse : Type 0 where
  bad_days : UsageResponse  -- 400
  no_pool : UsageResponse  -- 503
  stats : UsageStats → UsageResponse

unfoldable pub usage_stats : ℕ → List UsageRow → UsageStats
usage_stats days rows =
    let (by_group, by_tier) = group_breakdown rows [] [] in
    record {
      days = days;
      total_tasks = sum_counts rows;
      by_agent = tallied (λ r. r.agent) rows [];
      by_source = tallied (λ r. r.source) rows [];
      by_group = by_group;
      by_tier = by_tier;
    }

-- `days` is checked before the pool.
unfoldable pub get_usage_stats : ℕ → Option (List UsageRow) → UsageResponse
get_usage_stats days pool =
    if ltb days 1 || ltb 365 days
    then bad_days
    else elim pool [ none ↦ no_pool | some rows ↦ stats (usage_stats days rows) ]
