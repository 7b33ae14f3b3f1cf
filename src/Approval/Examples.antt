-- ===== src/Approval/Examples.antt =====
-- Verdicts of approval.py on concrete tasks.
use langgraph_agents.Base.{
  ◌≡◌, refl, true, false, some, none, [], ◌∷◌, text, Text, starts_with, Bool,
}
use langgraph_agents.Queue.Store.{Store, Status}
use langgraph_agents.Queue.Store.Examples.{first}
use langgraph_agents.Approval.{
  VerdictRequest, approve, not_paused, PausedGraph, AppState, post_approval, on_graph,
}
use langgraph_agents.Approval.Verdicts.{post_approval-Reconciled, Reconciled, production}

abbrev approval : Text → VerdictRequest
approval t = record {
  task_id = t;
  reaction = approve;
  approval_token = text "token";
  actor = text "rob";
}

-- A graph that has every thread as stated, and runs to its end.
abbrev graph : Bool → PausedGraph
graph paused = record { is_paused = λ _. paused; resume = λ _ _. (some (text "ok"), false) }

abbrev parked : Store
parked = record { queue = record first { status = Status.awaiting_approval } ∷ []; dlq = [] }

abbrev app : Bool → AppState
app paused = production (graph paused) none parked

refused : (post_approval 20 60 (app false) (approval (text "a"))).response ≡ not_paused
unfolding post_approval on_graph starts_with
refused = refl

post_approval-Reconciled_example :
    Reconciled false (text "a") (post_approval 20 60 (app true) (approval (text "a"))).task_queue
unfolding starts_with
post_approval-Reconciled_example =
    post_approval-Reconciled 20 60 (graph true) none parked (approval (text "a")) refl refl
