-- ===== src/Fleet.antt =====
-- src/agents/graphs/fleet.py with the triager and the supervisor (src/agents/nodes/triager.py,
-- src/agents/nodes/supervisor.py). What a language model decides is an argument of the node; the
-- other nodes are a function from state to state. LangGraph looks the router's answer up in the
-- edge's map: an answer that the map lacks is an error.
pub mod Routes
pub mod Runs
pub mod Examples
use langgraph_agents.Base.{
  ℕ, zero, suc, ◌+◌, Bool, true, false, Option, none, some, List, [], ◌∷◌, ◌++◌, leb, if◌then◌else◌,
  take, is_some, ◌&&◌, Text, text,
}
use langgraph_agents.State.{
  AgentId, triager, supervisor, errand_runner, reporter, TriageDecision, FleetState, homelab,
  action,
}

pub data Next : Type 0 where
  goto : AgentId → Next
  finish : Next
  unmapped : AgentId → Next

abbrev pub is_triager : AgentId → Bool
is_triager triager = true
is_triager _ = false

abbrev pub is_supervisor : AgentId → Bool
is_supervisor supervisor = true
is_supervisor _ = false

abbrev pub is_errand_runner : Option AgentId → Bool
is_errand_runner (some errand_runner) = true
is_errand_runner _ = false

-- The routers; `none` is END.
unfoldable pub route_after_triage : FleetState → Option AgentId
route_after_triage s = elim s.target_agent [
  | none ↦ none
  | some a ↦ if is_triager a then none else some a
]

unfoldable pub route_after_specialist : FleetState → Option AgentId
route_after_specialist s =
    if is_some s.rejection
    then some supervisor
    else if is_some s.approval_request && is_errand_runner s.target_agent
    then some errand_runner
    else none

unfoldable pub route_after_supervisor : FleetState → Option AgentId
route_after_supervisor s = elim s.target_agent [
  | none ↦ none
  | some a ↦ if is_supervisor a then none else some a
]

-- The route maps: END is re-targeted at the reporter.
abbrev triage_map : Option AgentId → Next
triage_map none = goto reporter
triage_map (some triager) = unmapped triager
triage_map (some a) = goto a

abbrev pub specialist_map : Option AgentId → Next
specialist_map none = goto reporter
specialist_map (some supervisor) = goto supervisor
specialist_map (some errand_runner) = goto errand_runner
specialist_map (some a) = unmapped a

abbrev supervisor_map : Option AgentId → Next
supervisor_map none = goto reporter
supervisor_map (some triager) = unmapped triager
supervisor_map (some supervisor) = unmapped supervisor
supervisor_map (some a) = goto a

-- The edges of `build_fleet_graph`.
unfoldable pub next : AgentId → FleetState → Next
next triager s = triage_map (route_after_triage s)
next supervisor s = supervisor_map (route_after_supervisor s)
next errand_runner s = goto reporter
next reporter s = finish
next _ s = specialist_map (route_after_specialist s)

unfoldable pub triager_node : TriageDecision → FleetState → FleetState
triager_node decision s = elim s.target_agent [
  | some a ↦ record s {
    triage = some (record {
      summary = take 120 s.content;
      domain = homelab;
      intent = action;
      target_agent = a;
      confidence_percent = 100;
    });
  }
  | none ↦ record s { triage = some decision; target_agent = some decision.target_agent }
]

pub data Disposition : Type 0 where
  reroute escalate_to_user auto_cancel wait : Disposition

pub record SupervisorDecision : Type 0 where
  pub disposition : Disposition
  pub new_target_agent : Option AgentId
  pub severity : Text
  pub rationale : Text
  pub user_message : Option Text

abbrev pub cascade_limit : ℕ
cascade_limit = 2

disposition_name : Disposition → Text
disposition_name reroute = text "reroute"
disposition_name escalate_to_user = text "escalate-to-user"
disposition_name auto_cancel = text "auto-cancel"
disposition_name wait = text "wait"

summary_of : SupervisorDecision → Text
summary_of d =
    text "supervisor: "
    ++ (disposition_name d.disposition
        ++ (text " (severity=" ++ (d.severity ++ (text ") — " ++ take 120 d.rationale))))

message_of : SupervisorDecision → Text → Text
message_of d m = text "supervisor → user (severity=" ++ (d.severity ++ (text "): " ++ m))

-- A reroute with a target, and an escalation with a (non-empty) message, change more than `output`.
decided_by :
    Disposition → Option AgentId → Option Text → SupervisorDecision → FleetState → FleetState
decided_by reroute (some a) message d s = record s {
  output = some (summary_of d);
  target_agent = some a;
  cascade_count = s.cascade_count + 1;
  rejection = none;
}
decided_by escalate_to_user a (some (c ∷ m)) d s = record s { output = some (message_of d (c ∷ m)) }
decided_by _ a message d s = record s { output = some (summary_of d) }

limit_message : Text → Text
limit_message task_id =
    text "supervisor: cascade limit (2) reached for task "
    ++ (task_id ++ text "; escalating to user.")

pub supervisor_node : SupervisorDecision → FleetState → FleetState
unfolding decided_by
supervisor_node d s =
    if leb cascade_limit s.cascade_count
    then record s { output = some (limit_message s.task_id); target_agent = some supervisor }
    else decided_by d.disposition d.new_target_agent d.user_message d s

-- The nodes of one run: the two models' decisions, which may depend on the state, and the others.
pub record Nodes : Type 0 where
  pub triage : FleetState → TriageDecision
  pub supervise : FleetState → SupervisorDecision
  pub other : AgentId → FleetState → FleetState

pub run_node : Nodes → AgentId → FleetState → FleetState
run_node nodes triager s = triager_node (nodes.triage s) s
run_node nodes supervisor s = supervisor_node (nodes.supervise s) s
run_node nodes a s = nodes.other a s

pub data End : Type 0 where
  ended : End
  key_error : AgentId → End
  recursion_limit : End

-- The run of the graph from a node, with LangGraph's bound on the number of steps as fuel: the
-- nodes that were run, how it ended, and the state.
abbrev prepend : AgentId → List AgentId × End × FleetState → List AgentId × End × FleetState
prepend a r = (a ∷ r.0, r.1, r.2)

pub run_from : Nodes → ℕ → AgentId → FleetState → List AgentId × End × FleetState
run_from nodes zero a s = ([], recursion_limit, s)
run_from nodes (suc fuel) a s =
    let s' = run_node nodes a s in
    elim (next a s') [
      | goto b ↦ prepend a (run_from nodes fuel b s')
      | finish ↦ (a ∷ [], ended, s')
      | unmapped b ↦ (a ∷ [], key_error b, s')
    ]

-- `START → triager`.
pub run : Nodes → ℕ → FleetState → List AgentId × End × FleetState
run nodes fuel s = run_from nodes fuel triager s
