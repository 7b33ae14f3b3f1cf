-- ===== src/Queue/Store.antt =====
-- src/agents/queue/store.py over the tables of src/agents/queue/migrations. A table is the list of
-- its rows. Each method is one SQL transaction, so the interleavings of several workers
-- (`FOR UPDATE SKIP LOCKED`) are sequences of these operations. Time is in seconds.
pub mod Steps
pub mod Conservation
pub mod Claims
pub mod Expiry
pub mod Terminal
pub mod Examples
use langgraph_agents.Base.{
  ℕ, ◌+◌, ◌-◌, Bool, true, false, Option, none, some, List, [], ◌∷◌, ◌++◌, map, ◌&&◌, ◌||◌, not,
  ltb, leb, ◌==◌, if◌then◌else◌, is_some, or_else, any, Text, text, text_eq, zero, suc, length,
}
use langgraph_agents.Observability.{Groups}
use langgraph_agents.Queue.Envelope.{Envelope, CuratedApproval}

pub data Status : Type 0 where
  pending claimed awaiting_approval done : Status

pub record Row : Type 0 where
  pub id : Text
  pub envelope : Envelope
  pub status : Status
  pub attempts : ℕ
  pub claimed_by : Option Text
  pub visibility_timeout_at : Option ℕ
  pub ttl_expires_at : Option ℕ
  pub approval_expires_at : Option ℕ
  pub approval_request : Option CuratedApproval
  pub result : Option Text
  pub served_groups : Option Groups
  pub created_at : ℕ
  pub updated_at : ℕ

pub record DlqRow : Type 0 where
  pub id : Text
  pub envelope : Envelope
  pub attempts : ℕ
  pub last_error : Text

pub record Store : Type 0 where
  pub queue : List Row
  pub dlq : List DlqRow

-- `TaskClaim`
pub record TaskClaim : Type 0 where
  pub task_id : Text
  pub envelope : Envelope
  pub attempts : ℕ

abbrev pub is_pending : Status → Bool
is_pending pending = true
is_pending _ = false

abbrev pub is_claimed : Status → Bool
is_claimed claimed = true
is_claimed _ = false

abbrev pub is_awaiting : Status → Bool
is_awaiting awaiting_approval = true
is_awaiting _ = false

abbrev pub is_done : Status → Bool
is_done done = true
is_done _ = false

-- A SQL comparison with NULL is not true.
abbrev pub is_before : Option ℕ → ℕ → Bool
is_before none now = false
is_before (some t) now = ltb t now

-- `UPDATE task_queue SET … WHERE id = …`
unfoldable pub update : Text → (Row → Row) → List Row → List Row
update t f [] = []
update t f (r ∷ rows) = (if text_eq r.id t then f r else r) ∷ update t f rows

-- `DELETE … RETURNING`: the rows that go, and those that stay.
unfoldable pub select : (Row → Bool) → List Row → List Row
select p [] = []
select p (r ∷ rows) = let rest = select p rows in if p r then r ∷ rest else rest

unfoldable pub reject : (Row → Bool) → List Row → List Row
reject p [] = []
reject p (r ∷ rows) = let rest = reject p rows in if p r then rest else r ∷ rest

abbrev pub to_dead : Text → Row → DlqRow
to_dead error r = record {
  id = r.id;
  envelope = r.envelope;
  attempts = r.attempts;
  last_error = error;
}

abbrev pub to_claim : Row → TaskClaim
to_claim r = record { task_id = r.id; envelope = r.envelope; attempts = r.attempts }

-- The CTE that deletes from the queue and inserts into the dead-letter table.
abbrev pub move_to_dlq : (Row → Bool) → Text → Store → Store
move_to_dlq p error s = record {
  queue = reject p s.queue;
  dlq = s.dlq ++ map (to_dead error) (select p s.queue);
}

-- `ttl_seconds` counts only if it is truthy.
abbrev pub deadline_of : ℕ → Option ℕ → Option ℕ
deadline_of now none = none
deadline_of now (some zero) = none
deadline_of now (some (suc n)) = some (now + suc n)

-- The primary key, and the unique index on the idempotency key.
abbrev pub same_key : Option Text → Option Text → Bool
same_key (some a) (some b) = text_eq a b
same_key _ _ = false

unfoldable pub collides : Text → Envelope → Row → Bool
collides t e r = text_eq r.id t || same_key r.envelope.idempotency_key e.idempotency_key

abbrev pub fresh_row : Text → Envelope → ℕ → Row
fresh_row t e now = record {
  id = t;
  envelope = e;
  status = pending;
  attempts = 0;
  claimed_by = none;
  visibility_timeout_at = none;
  ttl_expires_at = deadline_of now e.ttl_seconds;
  approval_expires_at = none;
  approval_request = none;
  result = none;
  served_groups = none;
  created_at = now;
  updated_at = now;
}

-- `task_id` is the ULID that the method generates; `none` is `UniqueViolation`.
unfoldable pub enqueue : ℕ → Text → Envelope → Store → Option Store
enqueue now task_id e s =
    if any (collides task_id e) s.queue
    then none
    else some (record s { queue = s.queue ++ fresh_row task_id e now ∷ [] })

unfoldable pub claimable : ℕ → Row → Bool
claimable now r =
    (is_pending r.status || (is_claimed r.status && is_before r.visibility_timeout_at now))
    && not (elim r.ttl_expires_at [ none ↦ false | some t ↦ leb t now ])

-- `ORDER BY created_at LIMIT 1`
unfoldable pub older : Row → Option Row → Row
older r none = r
older r (some s) = if leb r.created_at s.created_at then r else s

unfoldable pub oldest : ℕ → List Row → Option Row
unfolding older
oldest now [] = none
oldest now (r ∷ rows) =
    let rest = oldest now rows in if claimable now r then some (older r rest) else rest

abbrev pub claim_row : ℕ → ℕ → Text → Row → Row
claim_row now timeout worker r = record r {
  status = claimed;
  claimed_by = some worker;
  visibility_timeout_at = some (now + timeout);
  attempts = r.attempts + 1;
  updated_at = now;
}

unfoldable pub dequeue : ℕ → ℕ → Text → Store → Option TaskClaim × Store
dequeue now timeout worker s = elim (oldest now s.queue) [
  | none ↦ (none, s)
  | some r ↦ (
    some (to_claim (claim_row now timeout worker r)),
    record s { queue = update r.id (claim_row now timeout worker) s.queue },
  )
]

unfoldable pub ack : ℕ → Text → Store → Store
ack now t s = record s {
  queue = update t (λ r. record r { status = done; updated_at = now }) s.queue;
}

-- `COALESCE(new, old)`
abbrev coalesce {ℓ} : {A : Type ℓ} → Option A → Option A → Option A
coalesce none old = old
coalesce (some a) old = some a

unfoldable pub park_for_approval : ℕ → Text → ℕ → Option CuratedApproval → Store → Store
park_for_approval now t expires request s = record s {
  queue =
      update t
        (λ r. record r {
          status = awaiting_approval;
          approval_expires_at = some expires;
          approval_request = coalesce request r.approval_request;
          updated_at = now;
        })
        s.queue;
}

abbrev pub resolve_row : ℕ → Option Text → Row → Row
resolve_row now output r =
    if is_awaiting r.status
    then record r { status = done; result = output; approval_expires_at = none; updated_at = now }
    else r

unfoldable pub resolve_approval : ℕ → Text → Option Text → Store → Store
resolve_approval now t output s = record s { queue = update t (resolve_row now output) s.queue }

unfoldable pub nack : ℕ → Text → Store → Store
nack now t s = record s {
  queue =
      update t
        (λ r. record r {
          status = pending;
          claimed_by = none;
          visibility_timeout_at = none;
          updated_at = now;
        })
        s.queue;
}

unfoldable pub to_dlq : Text → Text → Store → Store
to_dlq t error s = move_to_dlq (λ r. text_eq r.id t) error s

unfoldable pub overdue : ℕ → Row → Bool
overdue now r = (is_pending r.status || is_claimed r.status) && is_before r.ttl_expires_at now

unfoldable pub expire_overdue : ℕ → Store → List TaskClaim × Store
expire_overdue now s =
    (map to_claim (select (overdue now) s.queue), move_to_dlq (overdue now) (text "ttl_expired") s)

unfoldable pub approval_overdue : ℕ → Row → Bool
approval_overdue now r = is_awaiting r.status && is_before r.approval_expires_at now

unfoldable pub expire_overdue_approvals : ℕ → Store → List TaskClaim × Store
expire_overdue_approvals now s = (
  map to_claim (select (approval_overdue now) s.queue),
  move_to_dlq (approval_overdue now) (text "approval_ttl_expired") s,
)

-- `MIN(updated_at)`
first_parked : List Row → Option ℕ
first_parked [] = none
first_parked (r ∷ rows) = elim (first_parked rows) [
  | none ↦ some r.updated_at
  | some m ↦ some (if leb r.updated_at m then r.updated_at else m)
]

unfoldable pub awaiting_approval_stats : ℕ → Store → ℕ × ℕ
unfolding first_parked
awaiting_approval_stats now s =
    let parked = select (λ r. is_awaiting r.status) s.queue in
    (length parked, elim (first_parked parked) [ none ↦ 0 | some m ↦ now - m ])

-- Subtraction on ℕ is the `max(0, …)` of the source.
unfoldable pub attempts_remaining : ℕ → TaskClaim → ℕ
attempts_remaining default_max claim =
    or_else claim.envelope.max_attempts default_max - claim.attempts
