-- ===== src/Queue/Store/Examples.antt =====
-- The task queue of store.py on concrete tables.
use langgraph_agents.Base.{ℕ, ◌≡◌, ◌+◌, arith, refl, some, none, List, [], ◌∷◌, text}
use langgraph_agents.State.{Source, DataTier}
use langgraph_agents.Queue.Envelope.{Envelope}
use langgraph_agents.Queue.Store.{
  Store, Row, Status, fresh_row, claimable, overdue, oldest, older, dequeue, expire_overdue,
  overdue,
}
use langgraph_agents.Queue.Store.Steps.{Op, enqueued, dequeued, nacked, swept, step, brings}
use langgraph_agents.Queue.Store.Conservation.{
  tally, count_rows, count_dead, tally-step, IsUnique, IsFresh, run, run-IsUnique,
}
use langgraph_agents.Queue.Store.Claims.{dequeue-Dequeues, Dequeues}
use langgraph_agents.Queue.Store.Expiry.{sweeps-IsSwept, IsSwept}

abbrev pub envelope : Envelope
envelope = record {
  client_task_id = text "c1";
  source = Source.cli;
  content = text "restart the pod";
  zulip_user_id = none;
  trace_id = none;
  requester = none;
  intent = none;
  destructive = none;
  idempotency_key = none;
  ttl_seconds = some 60;
  max_attempts = none;
  data_tier = DataTier.internal;
  target_agent = none;
  conversation_id = none;
}

abbrev pub first : Row
first = fresh_row (text "a") envelope 10

abbrev finished : Row
finished = record (fresh_row (text "b") envelope 5) { status = Status.done }

abbrev pub store : Store
store = record { queue = finished ∷ first ∷ []; dlq = [] }

abbrev empty : Store
empty = record { queue = []; dlq = [] }

abbrev history : List (ℕ × Op)
history =
    (20, enqueued (text "n") envelope)
    ∷ (21, dequeued 30 (text "w1"))
    ∷ (52, dequeued 30 (text "w2"))
    ∷ (60, nacked (text "a"))
    ∷ (99, swept)
    ∷ []

claimed_first : oldest 20 store.queue ≡ some first
unfolding oldest older claimable
claimed_first = refl

tally-step_example :
    tally (text "a") (step 99 swept store)
    ≡ tally (text "a") store + brings 99 (text "a") swept store
tally-step_example = tally-step 99 swept (text "a") store

empty-IsUnique : IsUnique empty
unfolding tally count_rows count_dead
empty-IsUnique t = omega arith

history-IsFresh : IsFresh history empty
unfolding tally count_rows count_dead
history-IsFresh = (refl, (tt, (tt, (tt, (tt, tt)))))

dequeue-Dequeues_example : Dequeues 20 30 (text "w1") store (dequeue 20 30 (text "w1") store)
dequeue-Dequeues_example = dequeue-Dequeues 20 30 (text "w1") store

sweeps-IsSwept_example :
    IsSwept
      (overdue 99)
      (text "ttl_expired")
      store
      (expire_overdue 99 store).0
      (expire_overdue 99 store).1
sweeps-IsSwept_example = (sweeps-IsSwept 99 store).0

run-IsUnique_example : IsUnique (run history empty)
run-IsUnique_example = run-IsUnique history empty history-IsFresh empty-IsUnique
