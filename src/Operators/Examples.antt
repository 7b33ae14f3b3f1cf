-- ===== src/Operators/Examples.antt =====
-- The operators on concrete findings.
use langgraph_agents.Base.{
  ◌≡◌, refl, true, false, some, [], ◌∷◌, Text, text, text_eq, strip, lstrip, rstrip, lower,
  contains_text,
}
use langgraph_agents.State.{
  ApprovalRequest, FleetState, fleet_state, Source, class_c, errand_runner,
}
use langgraph_agents.ErrandRunner.{
  errand_runner_node, Verdict, attempted, two_person, looks_like_ns_delete,
}
use langgraph_agents.ErrandRunner.Token.{Grant, mint, verify-mint}
use langgraph_agents.Mcp.{call}
use langgraph_agents.ErrandRunner.Execution.{acts}
use langgraph_agents.ErrandRunner.Examples.{hmac, world}
use langgraph_agents.Operators.{
  Operator, smart_home, homelab, Finding, proposed, operator_id, operator_node,
  compose_approval_request, payload_summary, undo_path, first_line, until_break,
}
use langgraph_agents.Operators.Handoff.{k8s_operator-refused, smart_home-executes}

abbrev lights : Finding
lights = record {
  action_class = class_c;
  handoff_target = some errand_runner;
  change = proposed (text "turn the porch light on");
  rollback = text "light.turn_off";
}

abbrev started : FleetState
started = fleet_state (text "t1") Source.cli (text "porch light")

abbrev request_of : Operator → Text → Text → ApprovalRequest
request_of op target undo = record {
  action_class = class_c;
  target = target;
  payload_summary = text "turn the porch light on";
  undo_path = some undo;
  proposed_by = operator_id op;
  requires_two_person = false;
}

abbrev ha_request : ApprovalRequest
ha_request =
    request_of smart_home (text "ha-mcp.call_service") (text "ha-mcp.call_service: light.turn_off")

abbrev k8s_request : ApprovalRequest
k8s_request =
    request_of homelab (text "kubectl-mcp.kubectl_apply")
      (text "kubectl-mcp.kubectl_apply: light.turn_off")

abbrev after : ApprovalRequest → FleetState
after req = record started {
  output = some (text "draft");
  approval_request = some req;
  target_agent = some errand_runner;
}

smart_home-asks : operator_node smart_home lights (text "draft") started ≡ some (after ha_request)
unfolding operator_node compose_approval_request payload_summary undo_path first_line until_break
    strip lstrip rstrip
smart_home-asks = refl

homelab-asks : operator_node homelab lights (text "draft") started ≡ some (after k8s_request)
unfolding operator_node compose_approval_request payload_summary undo_path first_line until_break
    strip lstrip rstrip
homelab-asks = refl

rollback-given : text_eq (strip lights.rollback) [] ≡ false
unfolding strip lstrip rstrip text_eq
rollback-given = refl

one_person : two_person ha_request ≡ false
unfolding looks_like_ns_delete lower contains_text
one_person = refl

k8s_operator-refused_example : acts (errand_runner_node hmac world (after k8s_request) []) ≡ false
k8s_operator-refused_example =
    k8s_operator-refused hmac world homelab lights (text "draft") started (after k8s_request) []
      refl refl homelab-asks

abbrev ha_grant : Grant
ha_grant = record {
  task_id = text "t1";
  action_class = class_c;
  server = text "ha-mcp";
  method = text "call_service";
}

abbrev granted : Verdict
granted = record {
  granted = true;
  deferred = false;
  approval_token = some (mint hmac (text "k") ha_grant (text "n0"));
}

smart_home-executes_example : errand_runner_node hmac world (after ha_request) (granted ∷ []) ≡ (
  attempted
      (text "ha-mcp")
      (text "call_service")
      (call errand_runner (text "ha-mcp") (text "call_service") world.answer).0,
  (text "ha-mcp", text "call_service") ∷ [],
)
smart_home-executes_example =
    smart_home-executes hmac world lights (text "draft") started (after ha_request) ha_request
      granted [] refl smart_home-asks refl rollback-given refl one_person refl refl
      (verify-mint hmac (text "k") ha_grant (text "n0")
        (record { task = refl; server = refl; method = refl }) refl)
