-- ===== src/Admin/Costs.antt =====
-- `GET /admin/costs/today` of src/agents/api/admin.py: the spend of the day from its log, a line of
-- JSON per call. The reading of a line is an argument, `none` where it raises. Costs are numbers of
-- one fixed unit, so that the rounding to four places is the identity.
use langgraph_agents.Base.{ℕ, ◌+◌, ◌≡◌, refl, Option, none, some, List, [], ◌∷◌, Text, arith}
use langgraph_agents.Admin.Usage.{Counts, bump}
use langgraph_agents.Admin.Usage.Totals.{total, total-bump}

pub record CostEntry : Type 0 where
  pub cost : ℕ
  pub agent : Option Text

pub record CostSummary : Type 0 where
  pub spent : ℕ
  pub daily_cap : ℕ
  pub per_agent : Counts
  pub date : ℕ

-- A line without an agent, or with an empty one, counts only in the sum.
abbrev pub add_agent : Option Text → ℕ → Counts → Counts
add_agent none cost per_agent = per_agent
add_agent (some []) cost per_agent = per_agent
add_agent (some (c ∷ agent)) cost per_agent = bump (c ∷ agent) cost per_agent

-- The lines up to the first that cannot be read.
unfoldable pub summed : List (Option CostEntry) → ℕ → Counts → ℕ × Counts
summed [] spent per_agent = (spent, per_agent)
summed (none ∷ lines) spent per_agent = (spent, per_agent)
summed (some e ∷ lines) spent per_agent =
    summed lines (spent + e.cost) (add_agent e.agent e.cost per_agent)

abbrev pub cost_summary : (daily_cap today : ℕ) → ℕ × Counts → CostSummary
cost_summary daily_cap today (spent, per_agent) = record {
  spent = spent;
  daily_cap = daily_cap;
  per_agent = per_agent;
  date = today;
}

abbrev pub lines_of : Option (List (Option CostEntry)) → List (Option CostEntry)
lines_of none = []
lines_of (some lines) = lines

-- `none` is a log that is not a file.
unfoldable pub costs_today :
    (daily_cap today : ℕ) → (cost_log : Option (List (Option CostEntry))) → CostSummary
costs_today daily_cap today cost_log =
    cost_summary daily_cap today (summed (lines_of cost_log) 0 [])

abbrev pub unnamed_cost : Option Text → ℕ → ℕ
unnamed_cost none cost = cost
unnamed_cost (some []) cost = cost
unnamed_cost (some (c ∷ agent)) cost = 0

-- The cost of the lines that name no agent, up to the first that cannot be read.
abbrev pub unnamed : List (Option CostEntry) → ℕ
unnamed [] = 0
unnamed (none ∷ lines) = 0
unnamed (some e ∷ lines) = unnamed_cost e.agent e.cost + unnamed lines

add_agent-total :
    (agent : Option Text) (cost : ℕ) (d : Counts)
    → total (add_agent agent cost d) + unnamed_cost agent cost ≡ total d + cost
add_agent-total none cost d = refl
add_agent-total (some []) cost d = refl
add_agent-total (some (c ∷ agent)) cost d = omega (arith, total-bump (c ∷ agent) cost d)

summed-total :
    (lines : List (Option CostEntry)) (spent : ℕ) (d : Counts)
    → total (summed lines spent d).1 + unnamed lines + spent ≡ (summed lines spent d).0 + total d
unfolding summed
summed-total [] spent d = omega arith
summed-total (none ∷ lines) spent d = omega arith
summed-total (some e ∷ lines) spent d = omega (
  arith,
  summed-total lines (spent + e.cost) (add_agent e.agent e.cost d),
  add_agent-total e.agent e.cost d,
)

-- The costs of the agents sum to the spend of the day, less what no agent is named for.
pub costs_today-total :
    (daily_cap today : ℕ) (cost_log : Option (List (Option CostEntry)))
    → let s = costs_today daily_cap today cost_log in
      total s.per_agent + unnamed (lines_of cost_log) ≡ s.spent
unfolding costs_today
costs_today-total daily_cap today cost_log = omega (arith, summed-total (lines_of cost_log) 0 [])
