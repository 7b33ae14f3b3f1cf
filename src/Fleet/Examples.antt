-- ===== src/Fleet/Examples.antt =====
-- Steps of the fleet graph on concrete states.
use langgraph_agents.Base.{◌≡◌, refl, Option, some, none, or_else, text}
use langgraph_agents.State.{
  TriageDecision, Domain, Intent, AgentId, class_c, supervisor, coder, errand_runner,
  homelab_engineer, network_operator, smart_home_operator, FleetState, fleet_state, Source,
}
use langgraph_agents.Fleet.{
  Nodes, run, next, goto, supervisor_node, decided_by, SupervisorDecision, reroute,
  route_after_supervisor,
}
use langgraph_agents.Fleet.Runs.{run-IsOver, IsOver}
use langgraph_agents.Operators.{
  Operator, homelab, network, smart_home, Finding, proposed, operator_node,
}
use langgraph_agents.Operators.Handoff.{operator_node-quiet}

abbrev fresh : FleetState
fresh = fleet_state (text "t1") Source.cli (text "restart the pod")

abbrev exhausted : FleetState
exhausted = record fresh { cascade_count = 2; target_agent = some coder }

abbrev to_coder : SupervisorDecision
to_coder = record {
  disposition = reroute;
  new_target_agent = some coder;
  severity = text "info";
  rationale = text "it is code";
  user_message = none;
}

rerouted : next supervisor (supervisor_node to_coder fresh) ≡ goto coder
unfolding next route_after_supervisor supervisor_node decided_by
rerouted = refl

abbrev decision : TriageDecision
decision = record {
  summary = text "code";
  domain = Domain.homelab;
  intent = Intent.action;
  target_agent = coder;
  confidence_percent = 90;
}

-- The operators as they are; the other nodes leave the state alone.
abbrev operator_of : AgentId → Option Operator
operator_of homelab_engineer = some homelab
operator_of network_operator = some network
operator_of smart_home_operator = some smart_home
operator_of _ = none

abbrev finding : Finding
finding = record {
  action_class = class_c;
  handoff_target = some errand_runner;
  change = proposed (text "turn the porch light on");
  rollback = text "light.turn_off";
}

abbrev node_of : Option Operator → FleetState → FleetState
node_of none s = s
node_of (some op) s = or_else (operator_node op finding (text "draft") s) s

node_of-quiet :
    (o : Option Operator) (s : FleetState) → s.rejection ≡ none → (node_of o s).rejection ≡ none
node_of-quiet none s h = h
node_of-quiet (some op) s h = operator_node-quiet op finding (text "draft") s h

abbrev operator_nodes : Nodes
operator_nodes = record {
  triage = λ s. record decision { target_agent = smart_home_operator };
  supervise = λ s. to_coder;
  other = λ a s. node_of (operator_of a) s;
}

run-IsOver_example : IsOver (run operator_nodes 25 fresh)
run-IsOver_example =
    run-IsOver operator_nodes 20 fresh (λ a s h. node_of-quiet (operator_of a) s h) refl
