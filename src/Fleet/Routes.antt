-- ===== src/Fleet/Routes.antt =====
-- What each step of the fleet graph does to the route, the cascade count and the rejection.
use langgraph_agents.Base.{◌≤◌, ◌≡◌, refl, arith}
use langgraph_agents.State.{AgentId, triager, supervisor, reporter, FleetState}
use langgraph_agents.Fleet.{
  goto, finish, next, route_after_triage, route_after_specialist, route_after_supervisor,
  supervisor_node, SupervisorDecision, cascade_limit,
}

-- The reporter is the one node whose edge ends the run.
pub next-finish : (a : AgentId) (s : FleetState) → next a s ≡ finish → a ≡ reporter
unfolding next route_after_triage route_after_specialist route_after_supervisor
next-finish reporter s h = refl
next-finish triager s h = ground arith
next-finish supervisor s h = ground arith
next-finish _ s h = ground arith

-- A supervisor step keeps the count of re-routes within the limit of two, whatever the model
-- decides.
pub supervisor_node-limit :
    (d : SupervisorDecision) (s : FleetState)
    → s.cascade_count ≤ cascade_limit
    → (supervisor_node d s).cascade_count ≤ cascade_limit
unfolding supervisor_node
supervisor_node-limit d s h = ground arith

-- From the limit on, the supervisor sends the task to the reporter, whatever the model decides.
pub supervisor_node-full :
    (d : SupervisorDecision) (s : FleetState)
    → cascade_limit ≤ s.cascade_count
    → next supervisor (supervisor_node d s) ≡ goto reporter
unfolding supervisor_node next route_after_supervisor
supervisor_node-full d s h = ground arith
