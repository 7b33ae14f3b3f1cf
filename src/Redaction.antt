-- ===== src/Redaction.antt =====
-- src/agents/redaction.py: the data-tier gate on emissions.
use langgraph_agents.Base.{Option, none, some, if◌then◌else◌, or_else, Text}
use langgraph_agents.State.{DataTier, internal}
use langgraph_agents.Context.{Context}
use langgraph_agents.Router.{is_restricted}

pub data Destination : Type 0 where
  claude vault_summary external_log : Destination

-- `RestrictedTierEmissionBlocked`
pub record EmissionBlocked : Type 0 where
  pub destination : Destination
  pub task_id : Option Text

unfoldable pub current_data_tier : Context → DataTier
current_data_tier ctx = or_else ctx.data_tier internal

-- `none` is a return, `some` the exception that is raised.
unfoldable pub assert_emission_allowed :
    Destination → Option DataTier → Context → Option EmissionBlocked
unfolding current_data_tier
assert_emission_allowed destination data_tier ctx =
    let tier = or_else data_tier (current_data_tier ctx) in
    if is_restricted (some tier)
    then some (record { destination = destination; task_id = ctx.task_id })
    else none
