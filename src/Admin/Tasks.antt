-- ===== src/Admin/Tasks.antt =====
-- The reads of src/agents/api/admin.py over the tables of the queue (`GET /admin/tasks?status=`,
-- `GET /admin/tasks/{id}`, `GET /admin/dlq`), the deletion of a dead-lettered task, and the listing of
-- paused threads. `none` for a table is a pool that is missing; the state of a thread is what the
-- checkpointer answers, where `none` is an exception. ULIDs are compared as texts.
pub mod Dlq
use langgraph_agents.Base.{
  ℕ, Bool, true, false, Option, none, some, List, [], ◌∷◌, any, take, filter, if◌then◌else◌, Text,
  text_eq, text_lt,
}
use langgraph_agents.State.{Source, FleetState}
use langgraph_agents.Queue.Envelope.{CuratedApproval}
use langgraph_agents.Queue.Store.{
  Row, DlqRow, Status, pending, claimed, awaiting_approval, done, is_pending, is_claimed,
  is_awaiting, is_done,
}
use langgraph_agents.PausedThreads.{PausedThread, ThreadGraph, sweep_paused_threads}

pub record TaskListing : Type 0 where
  pub task_id : Text
  pub queue_status : Status
  pub content : Text
  pub source : Source
  pub approval_expires_at : Option ℕ
  pub updated_at : ℕ
  pub approval_request : Option CuratedApproval

abbrev pub has_status : Status → Row → Bool
has_status pending r = is_pending r.status
has_status claimed r = is_claimed r.status
has_status awaiting_approval r = is_awaiting r.status
has_status done r = is_done r.status

abbrev pub task_listing : Row → TaskListing
task_listing r = record {
  task_id = r.id;
  queue_status = r.status;
  content = r.envelope.content;
  source = r.envelope.source;
  approval_expires_at = r.approval_expires_at;
  updated_at = r.updated_at;
  approval_request = r.approval_request;
}

-- `ORDER BY id DESC`
unfoldable pub insert_task : TaskListing → List TaskListing → List TaskListing
insert_task t [] = t ∷ []
insert_task t (u ∷ ts) =
    let later = insert_task t ts in if text_lt u.task_id t.task_id then t ∷ u ∷ ts else u ∷ later

unfoldable pub with_status : Status → List Row → List TaskListing
with_status status [] = []
with_status status (r ∷ rows) =
    let rest = with_status status rows in
    if has_status status r then insert_task (task_listing r) rest else rest

unfoldable pub list_tasks_by_status : Status → Option (List Row) → Option (List TaskListing)
list_tasks_by_status status none = none
list_tasks_by_status status (some rows) = some (with_status status rows)

pub record QueuePart : Type 0 where
  pub status : Status
  pub attempts : ℕ
  pub result : Option Text
  pub claimed_by : Option Text
  pub ttl_expires_at : Option ℕ

pub data TaskResponse : Type 0 where
  task_not_found : TaskResponse  -- 404
  task : Option QueuePart → Option FleetState → TaskResponse

unfoldable pub find_row : Text → List Row → Option QueuePart
find_row t [] = none
find_row t (r ∷ rows) =
    let rest = find_row t rows in
    if text_eq r.id t
    then some (record {
      status = r.status;
      attempts = r.attempts;
      result = r.result;
      claimed_by = r.claimed_by;
      ttl_expires_at = r.ttl_expires_at;
    })
    else rest

abbrev pub queue_part : Text → Option (List Row) → Option QueuePart
queue_part t none = none
queue_part t (some rows) = find_row t rows

abbrev pub checkpointer_part : Text → Option (Text → Option FleetState) → Option FleetState
checkpointer_part t none = none
checkpointer_part t (some get_state) = get_state t

abbrev pub task_response : Option QueuePart → Option FleetState → TaskResponse
task_response none none = task_not_found
task_response q c = task q c

unfoldable pub get_task :
    Text → Option (List Row) → (admin_graph : Option (Text → Option FleetState)) → TaskResponse
get_task t pool admin_graph = task_response (queue_part t pool) (checkpointer_part t admin_graph)

-- `WHERE id > …` where a cursor is given that is not empty.
abbrev pub is_after : Option Text → Text → Bool
is_after none id = true
is_after (some []) id = true
is_after (some (c ∷ cursor)) id = text_lt (c ∷ cursor) id

unfoldable pub insert_dead : DlqRow → List DlqRow → List DlqRow
insert_dead d [] = d ∷ []
insert_dead d (e ∷ es) =
    let later = insert_dead d es in if text_lt e.id d.id then d ∷ e ∷ es else e ∷ later

unfoldable pub dead_after : Option Text → List DlqRow → List DlqRow
dead_after since_id [] = []
dead_after since_id (d ∷ ds) =
    let rest = dead_after since_id ds in if is_after since_id d.id then insert_dead d rest else rest

unfoldable pub list_dlq :
    (since_id : Option Text) → (limit : ℕ) → Option (List DlqRow) → Option (List DlqRow)
list_dlq since_id limit none = none
list_dlq since_id limit (some dlq) = some (take limit (dead_after since_id dlq))

pub data DeleteResponse : Type 0 where
  no_pool : DeleteResponse  -- 503
  entry_not_found : DeleteResponse  -- 404
  deleted : DeleteResponse

unfoldable pub without_entry : Text → List DlqRow → List DlqRow
without_entry t [] = []
without_entry t (d ∷ ds) =
    let rest = without_entry t ds in if text_eq d.id t then rest else d ∷ rest

unfoldable pub delete_dlq_entry :
    Text → Option (List DlqRow) → DeleteResponse × Option (List DlqRow)
delete_dlq_entry t none = (no_pool, none)
delete_dlq_entry t (some dlq) =
    (if any (λ d. text_eq d.id t) dlq then deleted else entry_not_found, some (without_entry t dlq))

-- `none` is the 503 of a graph that is missing.
unfoldable pub list_paused_threads :
    (now stale_after : ℕ) → Option ThreadGraph → Option (List PausedThread)
list_paused_threads now stale_after none = none
list_paused_threads now stale_after (some graph) =
    some (sweep_paused_threads now stale_after none graph)
