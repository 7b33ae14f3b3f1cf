-- ===== src/Operators.antt =====
-- The operator nodes of src/agents/nodes (network_operator.py, storage_operator.py,
-- smart_home_operator.py, ml_operator.py, observability_operator.py and homelab_engineer.py): what a
-- finding of the language model does to the state. The finding and the text of the draft are
-- arguments; the free-text fields that only the draft shows are left out. Line breaks and blanks are
-- those of ASCII.
pub mod Handoff
pub mod Examples
use langgraph_agents.Base.{
  is_line_break, ℕ, Bool, true, false, Option, none, some, [], ◌∷◌, ◌++◌, ◌&&◌, ◌||◌, leb,
  if◌then◌else◌, take, Text, text, strip,
}
use langgraph_agents.State.{
  AgentId, network_operator, storage_operator, smart_home_operator, ml_operator,
  observability_operator, homelab_engineer, errand_runner, ActionClass, class_a, class_b, class_c,
  class_d, ApprovalRequest, FleetState,
}
use langgraph_agents.ErrandRunner.Refusals.{k8s_write_target}

pub data Operator : Type 0 where
  network storage smart_home ml observability homelab : Operator

-- `_AGENT_ID`
abbrev pub operator_id : Operator → AgentId
operator_id network = network_operator
operator_id storage = storage_operator
operator_id smart_home = smart_home_operator
operator_id ml = ml_operator
operator_id observability = observability_operator
operator_id homelab = homelab_engineer

abbrev pub ha_write_target : Text
ha_write_target = text "ha-mcp.call_service"

abbrev pub write_target : Operator → Text
write_target smart_home = ha_write_target
write_target _ = k8s_write_target

-- `proposed_change` (`proposed_action` of the homelab engineer), or the knob of the ml operator
-- with its formatted VRAM delta.
pub data Change : Type 0 where
  proposed : Text → Change
  knob : (name change vram_delta : Text) → Change

-- `handoff_target` is none for the user.
pub record Finding : Type 0 where
  pub action_class : ActionClass
  pub handoff_target : Option AgentId
  pub change : Change
  pub rollback : Text

unfoldable pub until_break : Text → Text
until_break [] = []
until_break (c ∷ s) = let rest = until_break s in if is_line_break c then [] else c ∷ rest

-- s.splitlines()[0][:n], where no line is an IndexError.
unfoldable pub first_line : ℕ → Text → Option Text
first_line n [] = none
first_line n (c ∷ s) = some (take n (until_break (c ∷ s)))

unfoldable pub payload_summary : Change → Option Text
payload_summary (proposed t) = first_line 200 (strip t)
payload_summary (knob name change vram_delta) =
    some (take 200 (name ++ text ": " ++ change ++ text " (VRAM " ++ vram_delta ++ text " GiB)"))

abbrev pub described : Text → Option Text → Option Text
described target none = none
described target (some line) = some (target ++ text ": " ++ line)

-- No undo path without a rollback.
unfoldable pub undo_path : Operator → Text → Option Text
undo_path op rollback = described (write_target op) (first_line 160 (strip rollback))

abbrev pub composed : Operator → Finding → Option Text → Option ApprovalRequest
composed op f none = none
composed op f (some summary) = some (record {
  action_class = f.action_class;
  target = write_target op;
  payload_summary = summary;
  undo_path = undo_path op f.rollback;
  proposed_by = operator_id op;
  requires_two_person = false;
})

unfoldable pub compose_approval_request : Operator → Finding → Option ApprovalRequest
compose_approval_request op f = composed op f (payload_summary f.change)

-- `_APPROVAL_REQUIRED_CLASSES`
abbrev pub needs_approval : ActionClass → Bool
needs_approval class_c = true
needs_approval class_d = true
needs_approval _ = false

abbrev pub hands_off : Option AgentId → Bool
hands_off (some errand_runner) = true
hands_off _ = false

abbrev pub with_request : Text → FleetState → Option ApprovalRequest → Option FleetState
with_request draft s none = none
with_request draft s (some req) = some (record s {
  output = some draft;
  approval_request = some req;
  target_agent = some errand_runner;
})

-- The state after the node, or the exception of the composition.
unfoldable pub operator_node : Operator → Finding → (draft : Text) → FleetState → Option FleetState
operator_node op f draft s =
    if hands_off f.handoff_target && needs_approval f.action_class
    then with_request draft s (compose_approval_request op f)
    else some (record s { output = some draft })
