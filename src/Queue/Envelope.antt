-- ===== src/Queue/Envelope.antt =====
-- The task envelope: the fields of `InboxRequest` (src/agents/api/inbox.py) as they travel on the
-- queue, and the curated approval of src/agents/queue/approval_post.py.
use langgraph_agents.Base.{ℕ, Option, Bool, Text}
use langgraph_agents.State.{
  Source, DataTier, Requester, Intent, ActionClass, AgentId, ApprovalRequest,
}

pub record Envelope : Type 0 where
  pub client_task_id : Text
  pub source : Source
  pub content : Text
  pub zulip_user_id : Option ℕ
  pub trace_id : Option Text
  pub requester : Option Requester
  pub intent : Option Intent
  pub destructive : Option Bool
  pub idempotency_key : Option Text
  pub ttl_seconds : Option ℕ
  pub max_attempts : Option ℕ  -- `retry_policy.max_attempts`
  pub data_tier : DataTier
  pub target_agent : Option Text
  pub conversation_id : Option Text

-- `APPROVAL_LISTING_FIELDS`
pub record CuratedApproval : Type 0 where
  pub payload_summary : Text
  pub action_class : ActionClass
  pub proposed_by : AgentId
  pub undo_path : Option Text
  pub requires_two_person : Bool

unfoldable pub curate_approval_request : ApprovalRequest → CuratedApproval
curate_approval_request r = record {
  payload_summary = r.payload_summary;
  action_class = r.action_class;
  proposed_by = r.proposed_by;
  undo_path = r.undo_path;
  requires_two_person = r.requires_two_person;
}
