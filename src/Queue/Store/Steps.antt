-- ===== src/Queue/Store/Steps.antt =====
-- The operations of store.py as the steps of a history.
use langgraph_agents.Base.{ℕ, Option, none, some, any, if◌then◌else◌, Text, text_eq}
use langgraph_agents.Queue.Envelope.{Envelope, CuratedApproval}
use langgraph_agents.Queue.Store.{
  Store, collides, enqueue, dequeue, ack, park_for_approval, resolve_approval, nack, to_dlq,
  expire_overdue, expire_overdue_approvals,
}

-- The operations on a store that exists, at one instant.
pub data Op : Type 0 where
  enqueued : Text → Envelope → Op
  dequeued : (timeout : ℕ) → (worker : Text) → Op
  acked nacked : Text → Op
  parked : Text → ℕ → Option CuratedApproval → Op
  resolved : Text → Option Text → Op
  buried : (task error : Text) → Op
  swept swept_approvals : Op

abbrev pub or_same : Option Store → Store → Store
or_same none s = s
or_same (some s') s = s'

unfoldable pub step : ℕ → Op → Store → Store
step now (enqueued t e) s = or_same (enqueue now t e s) s
step now (dequeued timeout worker) s = (dequeue now timeout worker s).1
step now (acked t) s = ack now t s
step now (nacked t) s = nack now t s
step now (parked t expires request) s = park_for_approval now t expires request s
step now (resolved t output) s = resolve_approval now t output s
step now (buried t error) s = to_dlq t error s
step now swept s = (expire_overdue now s).1
step now swept_approvals s = (expire_overdue_approvals now s).1

-- Whether the operation brings the task in.
abbrev pub brings : ℕ → Text → Op → Store → ℕ
brings now t (enqueued u e) s =
    if any (collides u e) s.queue then 0 else if text_eq u t then 1 else 0
brings now t _ s = 0
