-- ===== src/State.antt =====
-- src/agents/state.py: the typed enumerations, the sub-schemas and `FleetState`.
-- The free-text fields that no code branches on (summary, reasoning, skill hints) are kept only
-- where a node reads them.
use langgraph_agents.Base.{
  ℕ, zero, suc, Bool, true, Option, none, some, if◌then◌else◌, text, text_eq, List, [], ◌∷◌, Text,
  Eq, ◌==◌, ==_iff, ◌≡◌, ◌↔◌, refl, sym, ap, ◌∙◌,
}

pub data AgentId : Type 0 where
  triager historian note_maker researcher coder errand_runner supervisor : AgentId
  reviewer homelab_engineer network_operator storage_operator : AgentId
  smart_home_operator ml_operator observability_operator health_tracker : AgentId
  property_coordinator doc_writer reporter artist security auditor : AgentId

abbrev pub all_agent_ids : List AgentId
all_agent_ids =
    triager ∷ historian ∷ note_maker ∷ researcher ∷ coder ∷ errand_runner ∷ supervisor ∷ reviewer
    ∷ homelab_engineer ∷ network_operator ∷ storage_operator ∷ smart_home_operator ∷ ml_operator
    ∷ observability_operator ∷ health_tracker ∷ property_coordinator ∷ doc_writer ∷ reporter
    ∷ artist ∷ security ∷ auditor ∷ []

pub data ActionClass : Type 0 where
  class_a class_b class_c class_d : ActionClass

pub data Domain : Type 0 where
  homelab smart_home property vehicles medical career hobby meta : Domain

pub data Intent : Type 0 where
  question action research note bug idea reminder : Intent

pub data Source : Type 0 where
  voice zulip text_input holmesgpt test openwebui cli claude_code scheduled : Source

pub data Requester : Type 0 where
  rob renee system : Requester

pub data DataTier : Type 0 where
  public internal restricted : DataTier

pub data TimeoutTier : Type 0 where
  tier_30min tier_4h tier_7d : TimeoutTier

pub record TriageDecision : Type 0 where
  pub summary : Text
  pub domain : Domain
  pub intent : Intent
  pub target_agent : AgentId
  pub confidence_percent : ℕ

pub record RejectionSignal : Type 0 where
  pub rejected_by : AgentId
  pub reason : Text
  pub suggested_target : AgentId

pub record ApprovalRequest : Type 0 where
  pub action_class : ActionClass
  pub target : Text
  pub payload_summary : Text
  pub undo_path : Option Text
  pub proposed_by : AgentId
  pub requires_two_person : Bool

pub record FleetState : Type 0 where
  pub task_id : Text
  pub source : Source
  pub content : Text
  pub data_tier : DataTier
  pub triage : Option TriageDecision
  pub target_agent : Option AgentId
  pub cascade_count : ℕ
  pub rejection : Option RejectionSignal
  pub approval_request : Option ApprovalRequest
  pub approval_granted : Option Bool
  pub approval_token : Option Text
  pub timeout_tier : Option TimeoutTier
  pub output : Option Text

-- A state with the defaults of the schema.
abbrev pub fleet_state : Text → Source → Text → FleetState
fleet_state task_id source content = record {
  task_id = task_id;
  source = source;
  content = content;
  data_tier = DataTier.internal;
  triage = none;
  target_agent = none;
  cascade_count = 0;
  rejection = none;
  approval_request = none;
  approval_granted = none;
  approval_token = none;
  timeout_tier = none;
  output = none;
}

-- Equality of agent ids, through their places in `all_agent_ids`.
unfoldable pub agent_index : AgentId → ℕ
agent_index triager = 0
agent_index historian = 1
agent_index note_maker = 2
agent_index researcher = 3
agent_index coder = 4
agent_index errand_runner = 5
agent_index supervisor = 6
agent_index reviewer = 7
agent_index homelab_engineer = 8
agent_index network_operator = 9
agent_index storage_operator = 10
agent_index smart_home_operator = 11
agent_index ml_operator = 12
agent_index observability_operator = 13
agent_index health_tracker = 14
agent_index property_coordinator = 15
agent_index doc_writer = 16
agent_index reporter = 17
agent_index artist = 18
agent_index security = 19
agent_index auditor = 20

agent_at : List AgentId → ℕ → AgentId
agent_at [] n = triager
agent_at (a ∷ l) zero = a
agent_at (a ∷ l) (suc n) = agent_at l n

agent_at-index : (a : AgentId) → agent_at all_agent_ids (agent_index a) ≡ a
unfolding agent_at agent_index
agent_at-index triager = refl
agent_at-index _ = refl

unfoldable pub agent_eq : AgentId → AgentId → Bool
unfolding agent_index
agent_eq a b = agent_index a == agent_index b

pub agent_eq_iff : (a b : AgentId) → (agent_eq a b ≡ true) ↔ (a ≡ b)
unfolding agent_eq
agent_eq_iff a b = (
  λ h. sym (agent_at-index a) ∙ ap (agent_at all_agent_ids) ((==_iff _ _).0 h) ∙ agent_at-index b,
  λ p. (==_iff _ _).1 (ap agent_index p),
)

instance abbrev pub AgentId_eq : Eq AgentId
AgentId_eq = record { beq = agent_eq; beq_iff = agent_eq_iff }

-- The literals of `AgentId`.
unfoldable pub agent_name : AgentId → Text
agent_name triager = text "triager"
agent_name historian = text "historian"
agent_name note_maker = text "note-maker"
agent_name researcher = text "researcher"
agent_name coder = text "coder"
agent_name errand_runner = text "errand-runner"
agent_name supervisor = text "supervisor"
agent_name reviewer = text "reviewer"
agent_name homelab_engineer = text "homelab-engineer"
agent_name network_operator = text "network-operator"
agent_name storage_operator = text "storage-operator"
agent_name smart_home_operator = text "smart-home-operator"
agent_name ml_operator = text "ml-operator"
agent_name observability_operator = text "observability-operator"
agent_name health_tracker = text "health-tracker"
agent_name property_coordinator = text "property-coordinator"
agent_name doc_writer = text "doc-writer"
agent_name reporter = text "reporter"
agent_name artist = text "artist"
agent_name security = text "security"
agent_name auditor = text "auditor"

find_agent : Text → List AgentId → Option AgentId
unfolding agent_name
find_agent name [] = none
find_agent name (a ∷ agents) =
    if text_eq (agent_name a) name then some a else find_agent name agents

-- The agent of a name, where the name is one of `ALL_AGENT_IDS`.
unfoldable pub agent_of_name : Text → Option AgentId
unfolding find_agent
agent_of_name name = find_agent name all_agent_ids

pub agent_of_name-agent_name : (a : AgentId) → agent_of_name (agent_name a) ≡ some a
unfolding agent_of_name text_eq
agent_of_name-agent_name triager = refl
agent_of_name-agent_name _ = refl
