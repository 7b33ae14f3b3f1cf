-- ===== src/Reporter.antt =====
-- src/agents/nodes/reporter.py: the node that ends every run. The persona and the model's answer to
-- the system prompt and the request are arguments, `none` where the factory or the call raises; the
-- representations of a rejection and of an approval request are arguments too.
pub mod Fallback
pub mod Examples
use langgraph_agents.Base.{
  ℕ, Bool, true, false, Option, none, some, List, [], ◌∷◌, ◌++◌, ◌||◌, not, is_some, if◌then◌else◌,
  take, Text, text, text_eq, text_or, strip,
}
use langgraph_agents.State.{
  AgentId, agent_name, DataTier, public, internal, restricted, RejectionSignal, ApprovalRequest,
  FleetState,
}

pub record Repr : Type 0 where
  pub show_rejection : RejectionSignal → Text
  pub show_request : ApprovalRequest → Text

abbrev pub max_content_chars : ℕ
max_content_chars = 2000

abbrev pub max_output_chars : ℕ
max_output_chars = 6000

abbrev pub tier_name : DataTier → Text
tier_name public = text "public"
tier_name internal = text "internal"
tier_name restricted = text "restricted"

-- The name of the agent whose output is rendered, and that output.
pub record Upstream : Type 0 where
  pub agent : Text
  pub output : Text

abbrev pub target_name : Option AgentId → Text
target_name none = text "triager"
target_name (some a) = agent_name a

-- A task that targets the reporter itself has no specialist: its content is what is rendered.
unfoldable pub direct : (content agent output : Text) → Upstream
direct content agent (c ∷ output) = record { agent = agent; output = c ∷ output }
direct content agent [] =
    if text_eq agent (text "reporter")
    then record { agent = text "(direct)"; output = content }
    else record { agent = agent; output = [] }

unfoldable pub upstream_of : FleetState → Upstream
upstream_of s = direct s.content (target_name s.target_agent) (strip (text_or s.output []))

abbrev pub is_absent : Text → Bool
is_absent [] = true
is_absent (c ∷ t) = false

abbrev pub has_anything : Upstream → FleetState → Bool
has_anything u s = not (is_absent u.output) || (is_some s.rejection || is_some s.approval_request)

abbrev pub no_output : Upstream → Text → Text
no_output u task_id =
    text "**No output** from `"
    ++ (u.agent ++ (text "` — see `hai task show " ++ (task_id ++ text "` for details.")))

abbrev pub ask_part : Text → List Text
ask_part [] = []
ask_part (c ∷ content) = (text "## Original ask\n" ++ take max_content_chars (c ∷ content)) ∷ []

abbrev pub output_part : Text → Text → List Text
output_part agent [] = []
output_part agent (c ∷ output) =
    (text "## Specialist output (from `"
      ++ (agent ++ (text "`)\n" ++ take max_output_chars (c ∷ output))))
    ∷ []

abbrev pub rejection_part : Repr → Option RejectionSignal → List Text
rejection_part r none = []
rejection_part r (some signal) = (text "## Rejection\n" ++ r.show_rejection signal) ∷ []

abbrev pub request_part : Repr → Option ApprovalRequest → List Text
request_part r none = []
request_part r (some req) = (text "## Approval request\n" ++ r.show_request req) ∷ []

unfoldable pub materials : Repr → Upstream → FleetState → List Text
materials r u s =
    ask_part s.content
    ++ (output_part u.agent u.output
        ++ (rejection_part r s.rejection
            ++ (request_part r s.approval_request
                ++ (text "## Data tier\n" ++ tier_name s.data_tier) ∷ [])))

-- `"\n\n".join`
unfoldable pub join_blocks : List Text → Text
join_blocks [] = []
join_blocks (b ∷ []) = b
join_blocks (b ∷ d ∷ bs) = b ++ (text "\n\n" ++ join_blocks (d ∷ bs))

-- The sentences of `## Your task`, which no code reads, are an argument.
abbrev pub ask_of : (task : Text) → Repr → Upstream → FleetState → Text
ask_of task r u s = join_blocks (materials r u s) ++ task

abbrev pub reporter_unavailable : Text
reporter_unavailable = text "_(reporter unavailable; no fallback content)_"

abbrev pub rendered : Upstream → Option Text → Text
rendered u none = text_or (some u.output) reporter_unavailable
rendered u (some content) = strip content

module _ (persona task : Text) (r : Repr) (invoke : Text → Text → Option Text) where
  abbrev pub render : Upstream → FleetState → Text
  render u s =
      if has_anything u s
      then rendered u (invoke persona (ask_of task r u s))
      else no_output u s.task_id

  unfoldable pub reporter_node : FleetState → FleetState
  reporter_node s = record s { output = some (render (upstream_of s) s) }
