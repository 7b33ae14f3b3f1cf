-- ===== src/Queue/ApprovalPost.antt =====
-- src/agents/queue/approval_post.py: the approval that a paused thread waits for, and its post to the
-- webhook. The snapshot of a thread is what the checkpointer answers, `none` where it raises; the
-- webhook's answer is a status code, `none` where the call raises.
pub mod Parking
pub mod Examples
use langgraph_agents.Base.{
  ℕ, Bool, true, false, Option, none, some, List, [], ◌∷◌, ◌++◌, is_some, leb, or_else,
  if◌then◌else◌, Text, text, text_or,
}
use langgraph_agents.State.{ApprovalRequest}
use langgraph_agents.Queue.Envelope.{CuratedApproval, curate_approval_request}

-- The value of an interrupt: an approval request, which carries `action_class`, or anything else.
pub data InterruptPayload : Type 0 where
  approval : ApprovalRequest → InterruptPayload
  unrelated : InterruptPayload

-- The interrupts of each task of a snapshot.
abbrev pub Interrupts : Type 0
Interrupts = List (List InterruptPayload)

unfoldable pub first_approval_in : List InterruptPayload → Option ApprovalRequest
first_approval_in [] = none
first_approval_in (approval r ∷ is) = some r
first_approval_in (unrelated ∷ is) = first_approval_in is

abbrev pub found_or : Option ApprovalRequest → Option ApprovalRequest → Option ApprovalRequest
found_or none later = later
found_or (some r) later = some r

unfoldable pub find_approval_request : Interrupts → Option ApprovalRequest
find_approval_request [] = none
find_approval_request (task ∷ tasks) =
    found_or (first_approval_in task) (find_approval_request tasks)

-- `none` is an exception of the read.
abbrev pub approval_of : Option Interrupts → Option ApprovalRequest
approval_of none = none
approval_of (some tasks) = find_approval_request tasks

unfoldable pub has_pending_approval : (Text → Option Interrupts) → Text → Bool
has_pending_approval get_state task_id = is_some (approval_of (get_state task_id))

abbrev pub curated : Option ApprovalRequest → Option CuratedApproval
curated none = none
curated (some r) = some (curate_approval_request r)

unfoldable pub get_pending_approval : (Text → Option Interrupts) → Text → Option CuratedApproval
get_pending_approval get_state task_id = curated (approval_of (get_state task_id))

pub record Webhook : Type 0 where
  pub url : Option Text
  pub token : Option Text
  pub answer : Option ℕ

pub record ApprovalPayload : Type 0 where
  pub task_id : Text
  pub trace_id : Text
  pub approval_request : ApprovalRequest
  pub content : Text

pub record WebhookCall : Type 0 where
  pub url : Text
  pub authorization : Option Text
  pub payload : ApprovalPayload

-- How the post ended; each but the last is only logged.
pub data PostResult : Type 0 where
  no_webhook : PostResult
  no_approval : PostResult  -- also a snapshot that cannot be read
  call_failed : PostResult
  refused : (status : ℕ) → PostResult
  posted : (status : ℕ) → PostResult

abbrev pub authorization : Option Text → Option Text
authorization none = none
authorization (some []) = none
authorization (some (c ∷ token)) = some (text "Bearer " ++ c ∷ token)

abbrev pub answered : Option ℕ → PostResult
answered none = call_failed
answered (some status) = if leb 400 status then refused status else posted status

abbrev pub post_found :
    Webhook
    → (url task_id content : Text) → (trace_id : Option Text) → Option ApprovalRequest
    → PostResult × List WebhookCall
post_found hook url task_id content trace_id none = (no_approval, [])
post_found hook url task_id content trace_id (some r) = (
  answered hook.answer,
  record {
    url = url;
    authorization = authorization hook.token;
    payload = record {
      task_id = task_id;
      trace_id = or_else trace_id [];
      approval_request = r;
      content = content;
    };
  }
      ∷ [],
)

abbrev pub post_to :
    Webhook
    → Option Text
    → (Text → Option Interrupts)
    → (task_id content : Text) → (trace_id : Option Text) → PostResult × List WebhookCall
post_to hook none get_state task_id content trace_id = (no_webhook, [])
post_to hook (some []) get_state task_id content trace_id = (no_webhook, [])
post_to hook (some (c ∷ url)) get_state task_id content trace_id =
    post_found hook (c ∷ url) task_id content trace_id (approval_of (get_state task_id))

unfoldable pub post_approval_for_interrupts :
    Webhook
    → (Text → Option Interrupts)
    → (task_id content : Text) → (trace_id : Option Text) → PostResult × List WebhookCall
post_approval_for_interrupts hook get_state task_id content trace_id =
    post_to hook hook.url get_state task_id content trace_id
