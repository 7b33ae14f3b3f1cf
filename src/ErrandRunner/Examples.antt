-- ===== src/ErrandRunner/Examples.antt =====
-- The errand-runner on concrete requests, with a toy signature in place of HMAC-SHA256.
use langgraph_agents.Base.{
  ◌≡◌, refl, true, false, some, none, [], ◌∷◌, ◌++◌, text, Text, text_eq, split_once, rsplit_once,
  split, contains_text, lower, starts_with,
}
use langgraph_agents.State.{
  class_b, coder, network_operator, ApprovalRequest, FleetState, fleet_state, Source,
}
use langgraph_agents.Mcp.{is_allowed, allowlists, call, response}
use langgraph_agents.ErrandRunner.Token.{
  Grant, mint, verify_approval_token, matches_grant, verify-mint, verify-IsSigned, IsSigned,
  IsPlain,
}
use langgraph_agents.ErrandRunner.{
  World, Verdict, errand_runner_node, on_request, approve, after_first, after_verdict, confirm,
  after_second, dispatch, authorised, execute, looks_like_ns_delete, await_verdict,
}
use langgraph_agents.ErrandRunner.Execution.{acts, IsAuthorised, node-IsAuthorised}
use langgraph_agents.ErrandRunner.Refusals.{k8s_write_target}

abbrev pub hmac : Text → Text → Text
hmac secret payload = secret ++ payload

abbrev grant : Grant
grant = record {
  task_id = text "t1";
  action_class = class_b;
  server = text "arr-mcp";
  method = text "add_movie";
}

abbrev pub token : Text
token = mint hmac (text "k") grant (text "n0")

abbrev pub grant-IsPlain : IsPlain grant
grant-IsPlain = record { task = refl; server = refl; method = refl }

token_accepted : verify_approval_token hmac token grant (text "k") ≡ true
token_accepted = verify-mint hmac (text "k") grant (text "n0") grant-IsPlain refl

verify-mint_example :
    verify_approval_token hmac (mint hmac (text "k") grant (text "n0")) grant (text "k") ≡ true
verify-mint_example = verify-mint hmac (text "k") grant (text "n0") grant-IsPlain refl

verify-IsSigned_example : IsSigned hmac (text "k") token grant
verify-IsSigned_example = verify-IsSigned hmac (text "k") token grant token_accepted

abbrev pub request : ApprovalRequest
request = record {
  action_class = class_b;
  target = text "arr-mcp.add_movie";
  payload_summary = text "add a movie";
  undo_path = some (text "take it out again");
  proposed_by = coder;
  requires_two_person = false;
}

abbrev pub waiting : FleetState
waiting = record (fleet_state (text "t1") Source.cli (text "add a movie")) {
  approval_request = some request;
}

abbrev k8s_request : ApprovalRequest
k8s_request = record request { target = k8s_write_target; proposed_by = network_operator }

abbrev k8s_waiting : FleetState
k8s_waiting = record waiting { approval_request = some k8s_request }

abbrev pub world : World
world = record {
  signing_key = some (text "k");
  answer = response 200;
  fs = record { write_ok = true; read_text = none; unlink_ok = true; exists_after = false };
}

abbrev deferral : Verdict
deferral = record { granted = false; deferred = true; approval_token = none }

abbrev granted : Verdict
granted = record { granted = true; deferred = false; approval_token = some token }

acts_on_grant : acts (errand_runner_node hmac world waiting (deferral ∷ granted ∷ [])) ≡ true
unfolding errand_runner_node on_request approve after_first after_verdict confirm after_second
    dispatch authorised execute looks_like_ns_delete await_verdict verify_approval_token
    matches_grant is_allowed allowlists call text_eq split_once rsplit_once split contains_text
    lower starts_with
acts_on_grant = refl

node-IsAuthorised_example : IsAuthorised hmac world waiting (deferral ∷ granted ∷ [])
node-IsAuthorised_example =
    node-IsAuthorised hmac world waiting (deferral ∷ granted ∷ []) acts_on_grant
