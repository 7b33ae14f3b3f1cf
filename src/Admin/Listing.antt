-- ===== src/Admin/Listing.antt =====
-- `GET /admin/tasks` and `GET /admin/agents` of src/agents/api/admin.py: every thread that the
-- checkpointer knows, with the envelope and the status of its row in the queue. The checkpointer of
-- the admin graph is a parameter, and so is the identity of an agent; ULIDs are compared as texts. The
-- user and the time of the pause, which no other part reads, are left out.
use langgraph_agents.Base.{
  Option, none, some, List, [], ◌∷◌, if◌then◌else◌, map, any, Text, text_eq, text_lt,
}
use langgraph_agents.State.{AgentId, all_agent_ids, agent_name, TimeoutTier, Source, FleetState}
use langgraph_agents.PausedThreads.{Interrupt}
use langgraph_agents.Queue.Store.{Row, Status}
use langgraph_agents.Admin.Tasks.{TaskListing, list_tasks_by_status}

pub record Identity : Type 0 where
  pub name : Text
  pub emoji : Text

pub record AgentListing : Type 0 where
  pub id : Text
  pub name : Text
  pub emoji : Text

unfoldable pub list_agents : (AgentId → Identity) → List AgentListing
list_agents load_identity =
    map
      (λ a. record {
        id = agent_name a;
        name = (load_identity a).name;
        emoji = (load_identity a).emoji;
      })
      all_agent_ids

pub record ThreadState : Type 0 where
  pub values : Option FleetState
  pub interrupts : List Interrupt

pub record AdminThreads : Type 0 where
  pub checkpoints : List (Option Text)
  pub get_state : Text → ThreadState

pub record ListedTask : Type 0 where
  pub task_id : Text
  pub target_agent : Option AgentId
  pub timeout_tier : Option TimeoutTier
  pub interrupts : List Interrupt
  pub content : Text
  pub source : Option Source
  pub queue_status : Option Status

-- A thread id of a checkpoint, if it is not empty, added to a set of them.
abbrev pub see : Option Text → List Text → List Text
see none seen = seen
see (some []) seen = seen
see (some (c ∷ t)) seen = if any (text_eq (c ∷ t)) seen then seen else (c ∷ t) ∷ seen

unfoldable pub threads_of : List (Option Text) → List Text
threads_of [] = []
threads_of (id ∷ ids) = see id (threads_of ids)

unfoldable pub row_with_id : Text → List Row → Option Row
row_with_id t [] = none
row_with_id t (r ∷ rows) = let rest = row_with_id t rows in if text_eq r.id t then some r else rest

abbrev pub target_agent_of : Option FleetState → Option AgentId
target_agent_of none = none
target_agent_of (some s) = s.target_agent

abbrev pub timeout_tier_of : Option FleetState → Option TimeoutTier
timeout_tier_of none = none
timeout_tier_of (some s) = s.timeout_tier

abbrev pub with_row : ListedTask → Option Row → ListedTask
with_row t none = t
with_row t (some r) = record t {
  content = r.envelope.content;
  source = some r.envelope.source;
  queue_status = some r.status;
}

abbrev pub without_row : Text → ThreadState → ListedTask
without_row t s = record {
  task_id = t;
  target_agent = target_agent_of s.values;
  timeout_tier = timeout_tier_of s.values;
  interrupts = s.interrupts;
  content = [];
  source = none;
  queue_status = none;
}

-- A pool that is missing has no rows.
abbrev pub pool_rows : Option (List Row) → List Row
pool_rows none = []
pool_rows (some rows) = rows

-- `out.sort(key=…, reverse=True)`
unfoldable pub insert_listed : ListedTask → List ListedTask → List ListedTask
insert_listed t [] = t ∷ []
insert_listed t (u ∷ ts) =
    let later = insert_listed t ts in if text_lt u.task_id t.task_id then t ∷ u ∷ ts else u ∷ later

unfoldable pub sorted_tasks : (Text → ListedTask) → List Text → List ListedTask
sorted_tasks listed [] = []
sorted_tasks listed (t ∷ ts) = insert_listed (listed t) (sorted_tasks listed ts)

pub data TasksResponse : Type 0 where
  by_status : Option (List TaskListing) → TasksResponse
  no_admin_graph : TasksResponse  -- 503
  all_tasks : List ListedTask → TasksResponse

unfoldable pub list_tasks :
    (status : Option Status) → Option AdminThreads → (pool : Option (List Row)) → TasksResponse
list_tasks (some status) graph pool = by_status (list_tasks_by_status status pool)
list_tasks none none pool = no_admin_graph
list_tasks none (some graph) pool = all_tasks (
    sorted_tasks
      (λ t. with_row (without_row t (graph.get_state t)) (row_with_id t (pool_rows pool)))
      (threads_of graph.checkpoints))
