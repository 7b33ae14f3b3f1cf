-- ===== src/Queue/Worker/Examples.antt =====
-- The worker of worker.py on concrete claims.
use langgraph_agents.Base.{
  ◌≡◌, refl, true, false, some, none, [], ◌∷◌, text, Text, text_eq, if◌then◌else◌, arith,
}
use langgraph_agents.State.{class_b, coder, ApprovalRequest}
use langgraph_agents.Queue.Store.{Row, TaskClaim, fresh_row}
use langgraph_agents.Queue.Store.Examples.{envelope, store}
use langgraph_agents.Queue.Store.Conservation.{tally}
use langgraph_agents.Queue.Store.Terminal.{StatusIs}
use langgraph_agents.Queue.Worker.{Deployment, Graph, raised, returned, State, handle_one, run}
use langgraph_agents.Queue.Worker.Settles.{is_released, handle_one-settled}
use langgraph_agents.Queue.Worker.Retries.{retries-exhausted, exhausted, only}

abbrev pub deployment : Deployment
deployment = record {
  default_max_attempts = 3;
  approval_ttl_seconds = 86400;
  approval_post_webhook = true;
  completion_post_webhook = false;
}

abbrev request : ApprovalRequest
request = record {
  action_class = class_b;
  target = text "arr-mcp.add_movie";
  payload_summary = text "add a movie";
  undo_path = none;
  proposed_by = coder;
  requires_two_person = false;
}

-- A graph that pauses on one thread.
abbrev pausing : Text → Graph
pausing t = record {
  invoke = λ _ _. returned none;
  pending = λ u. if text_eq t u then some request else none;
}

abbrev failing : Graph
failing = record { invoke = λ _ _. raised (text "boom"); pending = λ _. none }

abbrev pub claim : TaskClaim
claim = record { task_id = text "a"; envelope = envelope; attempts = 1 }

abbrev pub talk : TaskClaim
talk = record claim { envelope = record envelope { conversation_id = some (text "c9") } }

abbrev pub state : State
state = record {
  store = store;
  acc = record {
    task_spend = [];
    agent_daily_spend = [];
    task_served_groups = [];
    claude_cost = 0;
  };
  sent = [];
}

handle_one-settled_example :
    StatusIs is_released (text "a") (handle_one deployment failing 20 claim state).store.queue
    × (tally (text "b") (handle_one deployment failing 20 claim state).store
        ≡ tally (text "b") store)
handle_one-settled_example = handle_one-settled deployment failing 20 claim state (text "b")

abbrev patient : Row
patient = fresh_row (text "a") (record envelope { ttl_seconds = none }) 10

retries-exhausted_example :
    run deployment failing
      (20 ∷ 30 ∷ 40 ∷ [])
      300
      (text "w1")
      (record state { store = only patient [] })
    ≡ record state { store = record { queue = []; dlq = exhausted (text "boom") 3 patient ∷ [] } }
retries-exhausted_example =
    retries-exhausted deployment failing 300 (text "w1") (text "boom") (20 ∷ 30 ∷ 40 ∷ []) patient
      [] state (λ _ _. refl) (record { is_pending = refl; no_deadline = refl }) (omega arith)
      (omega arith)
