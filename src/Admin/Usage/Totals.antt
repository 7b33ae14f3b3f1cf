-- ===== src/Admin/Usage/Totals.antt =====
-- The breakdowns of the completion counts add up.
use langgraph_agents.Base.{
  ℕ, ◌+◌, ◌≡◌, refl, ap, ◌∙◌, Bool, true, false, Option, none, some, List, [], ◌∷◌, arith,
  if◌then◌else◌, or_else, Text, text_eq, get, put, Text_eq, text_eq_iff, Bool-cases, get-put, inl,
  inr,
}
use langgraph_agents.Llm.{agent_group}
use langgraph_agents.State.{AgentId, triager, agent_of_name}
use langgraph_agents.Observability.{Groups}
use langgraph_agents.Admin.Usage.{
  UsageRow, Counts, bump, row_keys, group_breakdown, tallied, sum_counts, usage_stats, any_group,
  escalated, is_claude, tier_of, configured_keys, keys_of,
}

-- The sum of the values of a dict.
abbrev pub total : Counts → ℕ
total [] = 0
total ((k, n) ∷ d) = n + total d

total-put : (d : Counts) (k : Text) (v : ℕ) → total (put d k v) + or_else (get d k) 0 ≡ total d + v
unfolding put get
total-put [] k v = omega arith
total-put ((j, w) ∷ d) k v = ground (arith, total-put d k v)

pub total-bump : (k : Text) (n : ℕ) (d : Counts) → total (bump k n d) ≡ total d + n
unfolding bump
total-bump k n d = omega (arith, total-put d k (or_else (get d k) 0 + n))

total-tallied :
    (key : UsageRow → Text) (rows : List UsageRow) (d : Counts)
    → total (tallied key rows d) ≡ total d + sum_counts rows
unfolding tallied sum_counts
total-tallied key [] d = omega arith
total-tallied key (r ∷ rows) d =
    omega (arith, total-tallied key rows (bump (key r) r.count d), total-bump (key r) r.count d)

total-from_empty :
    (key : UsageRow → Text) (rows : List UsageRow) → total (tallied key rows []) ≡ sum_counts rows
total-from_empty key rows = omega (arith, total-tallied key rows [])

-- The breakdown is two of these loops in one.
breakdown-tallied :
    (rows : List UsageRow) (g t : Counts)
    → group_breakdown rows g t
      ≡ (tallied (λ r. (row_keys r).0) rows g, tallied (λ r. (row_keys r).1) rows t)
unfolding group_breakdown tallied
breakdown-tallied [] g t = refl
breakdown-tallied (r ∷ rows) g t =
    breakdown-tallied rows (bump (row_keys r).0 r.count g) (bump (row_keys r).1 r.count t)

-- Each of the four breakdowns counts every task exactly once: its values sum to the total.
pub usage_stats-total :
    (days : ℕ) (rows : List UsageRow)
    → let s = usage_stats days rows in
      (total s.by_agent ≡ s.total_tasks)
      × (total s.by_source ≡ s.total_tasks)
      × (total s.by_group ≡ s.total_tasks)
      × (total s.by_tier ≡ s.total_tasks)
unfolding usage_stats
usage_stats-total days rows = (
  total-from_empty (λ r. r.agent) rows,
  total-from_empty (λ r. r.source) rows,
  ap (λ (p : Counts × Counts). total p.0) (breakdown-tallied rows [] [])
      ∙ total-from_empty (λ r. (row_keys r).0) rows,
  ap (λ (p : Counts × Counts). total p.1) (breakdown-tallied rows [] [])
      ∙ total-from_empty (λ r. (row_keys r).1) rows,
)

-- What a loop counts under one key.
count_of : (UsageRow → Text) → Text → List UsageRow → ℕ
count_of key k [] = 0
count_of key k (r ∷ rows) = (if text_eq (key r) k then r.count else 0) + count_of key k rows

get-tallied :
    (key : UsageRow → Text) (k : Text) (rows : List UsageRow) (d : Counts)
    → or_else (get (tallied key rows d) k) 0 ≡ or_else (get d k) 0 + count_of key k rows
unfolding tallied count_of bump
get-tallied key k [] d = omega arith
get-tallied key k (r ∷ rows) d = ground (
  arith,
  get-tallied key k rows (put d (key r) (or_else (get d (key r)) 0 + r.count)),
  get-put d (key r) k (or_else (get d (key r)) 0 + r.count),
  text_eq_iff (key r) k,
)

from_empty :
    (key : UsageRow → Text) (k : Text) (rows : List UsageRow)
    → or_else (get (tallied key rows []) k) 0 ≡ count_of key k rows
unfolding get
from_empty key k rows = ground (arith, get-tallied key k rows [])

-- Claude served a call of the row's tasks, by the recorded provenance.
abbrev pub has_claude : Option Groups → Bool
has_claude none = false
has_claude (some g) = g.remote

abbrev pub escalated_count : List UsageRow → ℕ
escalated_count [] = 0
escalated_count (r ∷ rows) =
    (if has_claude r.served_groups then r.count else 0) + escalated_count rows

local-configured : (a : AgentId) → is_claude (agent_group a) ≡ false
unfolding agent_group
local-configured triager = refl
local-configured _ = refl

tier-remote : (b : Bool) → text_eq (tier_of b) escalated ≡ b
unfolding text_eq
tier-remote true = refl
tier-remote false = refl

configured-local : (o : Option AgentId) → text_eq (configured_keys o).1 escalated ≡ false
unfolding text_eq
configured-local none = refl
configured-local (some a) = rw (local-configured a, tier_of) refl

keys-escalated :
    (o : Option Groups) (a : Option AgentId) → text_eq (keys_of o a).1 escalated ≡ has_claude o
unfolding text_eq
keys-escalated none a = configured-local a
keys-escalated (some g) a = elim (Bool-cases (any_group g)) [
  | inl some_group ↦ rw some_group (tier-remote g.remote)
  | inr no_group ↦ rw no_group (configured-local a ∙ ground arith)
]

tier-escalated : (r : UsageRow) → text_eq (row_keys r).1 escalated ≡ has_claude r.served_groups
unfolding row_keys
tier-escalated r = keys-escalated r.served_groups (agent_of_name r.agent)

count_of-escalated :
    (rows : List UsageRow) → count_of (λ r. (row_keys r).1) escalated rows ≡ escalated_count rows
unfolding count_of
count_of-escalated [] = refl
count_of-escalated (r ∷ rows) = ground (arith, tier-escalated r, count_of-escalated rows)

-- The count of the `escalated` tier is the number of tasks whose recorded provenance contains
-- Claude: no task is put there by the configured group of its agent.
pub usage_stats-escalated :
    (days : ℕ) (rows : List UsageRow)
    → or_else (get (usage_stats days rows).by_tier escalated) 0 ≡ escalated_count rows
unfolding usage_stats
usage_stats-escalated days rows =
    ap (λ (p : Counts × Counts). or_else (get p.1 escalated) 0) (breakdown-tallied rows [] [])
    ∙ from_empty (λ r. (row_keys r).1) escalated rows
    ∙ count_of-escalated rows
