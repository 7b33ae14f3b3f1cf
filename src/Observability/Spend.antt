-- ===== src/Observability/Spend.antt =====
-- What the accumulators of observability.py hold after a call is recorded.
use langgraph_agents.Base.{
  ℕ, ◌+◌, ◌<◌, ◌≡◌, Bool, false, Option, some, List, [], ◌∷◌, ◌==◌, ◌&&◌, if◌then◌else◌, or_else,
  Text, All, arith, get, put, get-put, Text_eq, pair_eq, ℕ_eq, text_eq, text_eq_iff, Bool-cases,
  inl, inr, ==_iff,
}
use langgraph_agents.State.{AgentId, AgentId_eq, agent_eq, agent_eq_iff}
use langgraph_agents.Router.{claude}
use langgraph_agents.Observability.{
  Accumulators, AgentDay, is_stale, evict, add_task_spend, global_claude_spend_usd,
  record_task_spend, task_spend_usd, agent_daily_spend_usd, record_llm_call,
}

-- Whether an entry of the map is the one for the agent and the day.
abbrev is_key : AgentId → ℕ → AgentDay → Bool
is_key a day k = agent_eq k.0 a && k.1 == day

-- Eviction keeps the entries of the days that are not stale.
get-evict :
    (today day : ℕ) (a : AgentId) (d : List (AgentDay × ℕ))
    → is_stale today day ≡ false
    → get (evict today d) (a, day) ≡ get d (a, day)
unfolding get evict
get-evict today day a [] h = ground arith
get-evict today day a (((b, e), v) ∷ d) h =
    ground (arith, get-evict today day a d h, agent_eq_iff b a, ==_iff e day)

module _ (today : ℕ) (t : Text) (a : AgentId) (cost : ℕ) (acc : Accumulators) where
  task_spend-record :
      (u : Text)
      → task_spend_usd (some u) (record_task_spend today (some t) a cost acc)
        ≡ task_spend_usd (some u) acc + (if text_eq t u then cost else 0)
  unfolding task_spend_usd record_task_spend add_task_spend
  task_spend-record u =
      ground (
        arith,
        get-put acc.task_spend t u (or_else (get acc.task_spend t) 0 + cost),
        text_eq_iff t u,
      )

  daily-record :
      (b : AgentId)
      → agent_daily_spend_usd today b (record_task_spend today (some t) a cost acc)
        ≡ agent_daily_spend_usd today b acc + (if agent_eq a b then cost else 0)
  unfolding agent_daily_spend_usd record_task_spend
  daily-record b =
      let daily = evict today acc.agent_daily_spend in
      ground (
        arith,
        get-put daily (a, today) (b, today) (or_else (get daily (a, today)) 0 + cost),
        get-evict today today a acc.agent_daily_spend (ground arith),
        get-evict today today b acc.agent_daily_spend (ground arith),
        agent_eq_iff a b,
        ==_iff today today,
      )

claude_cost-record :
    (today : ℕ) (t : Option Text) (a : AgentId) (cost : ℕ) (acc : Accumulators)
    → (record_llm_call today t a claude cost acc).claude_cost ≡ acc.claude_cost + cost
unfolding record_llm_call record_task_spend
claude_cost-record today t a cost acc = ground arith

module _ (today : ℕ) (t : Text) (a : AgentId) (cost : ℕ) (acc : Accumulators) where
  abbrev counter : Accumulators
  counter = record acc { claude_cost = acc.claude_cost + cost }

  task_spend-record_call :
      (u : Text)
      → task_spend_usd (some u) (record_llm_call today (some t) a claude cost acc)
        ≡ task_spend_usd (some u) acc + (if text_eq t u then cost else 0)
  unfolding record_llm_call task_spend_usd
  task_spend-record_call u = ground (arith, task_spend-record today t a cost counter u)

  daily-record_call :
      (b : AgentId)
      → agent_daily_spend_usd today b (record_llm_call today (some t) a claude cost acc)
        ≡ agent_daily_spend_usd today b acc + (if agent_eq a b then cost else 0)
  unfolding record_llm_call agent_daily_spend_usd
  daily-record_call b = ground (arith, daily-record today t a cost counter b)

-- After a priced Claude call of a bound task is recorded, the three totals that the cost caps read
-- (the process's Claude spend, the agent's spend of the day, and the task's) have each grown by
-- exactly the cost of the call, and no other agent's or task's total has changed.
pub record_llm_call-totals :
    (today : ℕ) (t u : Text) (a b : AgentId) (cost : ℕ) (acc : Accumulators)
    → let after = record_llm_call today (some t) a claude cost acc in
      (global_claude_spend_usd after ≡ global_claude_spend_usd acc + cost)
      × (agent_daily_spend_usd today b after
          ≡ agent_daily_spend_usd today b acc + (if agent_eq a b then cost else 0))
      × (task_spend_usd (some u) after
          ≡ task_spend_usd (some u) acc + (if text_eq t u then cost else 0))
record_llm_call-totals today t u a b cost acc = (
  claude_cost-record today (some t) a cost acc,
  daily-record_call today t a cost acc b,
  task_spend-record_call today t a cost acc u,
)

-- Every entry of the map is of the last seven days.
abbrev pub IsRecent : ℕ → List (AgentDay × ℕ) → Type 0
IsRecent today = All (λ e. is_stale today e.0.1 ≡ false)

evict-IsRecent : (today : ℕ) (d : List (AgentDay × ℕ)) → IsRecent today (evict today d)
unfolding evict
evict-IsRecent today [] = tt
evict-IsRecent today (((b, e), v) ∷ d) = ground (arith, evict-IsRecent today d)

put-IsRecent :
    (today : ℕ) (a : AgentId) (v : ℕ) (d : List (AgentDay × ℕ))
    → IsRecent today d
    → IsRecent today (put d (a, today) v)
unfolding put
put-IsRecent today a v [] h = ground arith
put-IsRecent today a v (((b, e), w) ∷ d) h = ground (arith, put-IsRecent today a v d h.1)

-- Recording a call with a cost leaves no entry of the per-agent map that is more than seven days
-- old, whatever stood there before.
pub record_task_spend-IsRecent :
    (today : ℕ) (t : Option Text) (a : AgentId) (cost : ℕ) (acc : Accumulators)
    → 0 < cost
    → IsRecent today (record_task_spend today t a cost acc).agent_daily_spend
unfolding record_task_spend
record_task_spend-IsRecent today t a cost acc h = elim (Bool-cases (cost == 0)) [
  | inl zero_cost ↦ absurd (ground arith)
  | inr some_cost ↦
      rw some_cost (put-IsRecent today a _ _ (evict-IsRecent today acc.agent_daily_spend))
]
