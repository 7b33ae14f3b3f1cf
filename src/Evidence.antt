-- ===== src/Evidence.antt =====
-- src/agents/nodes/_evidence.py: the evidence that an operator gathers before it answers. The
-- streaming of the agent is an argument: the message lists of its steps, and how it ended.
pub mod Gathering
pub mod Examples
use langgraph_agents.Base.{
  ℕ, ◌+◌, ◌*◌, Bool, true, false, Option, none, some, List, [], ◌∷◌, ◌++◌, Text, text, strip,
  text_or, join,
}

pub data LoopMessage : Type 0 where
  human_message : (content : Text) → LoopMessage
  ai_message : (content : Text) → (has_tool_calls : Bool) → LoopMessage
  tool_message : (name : Option Text) → (content : Text) → LoopMessage

-- How the stream of the agent ended.
pub data StreamEnd : Type 0 where
  completed recursion_error failed : StreamEnd

pub record Stream : Type 0 where
  pub states : List (List LoopMessage)
  pub end : StreamEnd

abbrev pub max_tool_calls : ℕ
max_tool_calls = 8

abbrev pub recursion_limit : ℕ
recursion_limit = 2 * max_tool_calls + 4

unfoldable pub last_message : List LoopMessage → Option LoopMessage
last_message [] = none
last_message (m ∷ []) = some m
last_message (m ∷ n ∷ ms) = last_message (n ∷ ms)

-- The final summary of the agent, where its last message is one.
abbrev pub final_summary : Option LoopMessage → Text
final_summary (some (ai_message content false)) = strip content
final_summary (some (ai_message content true)) = []
final_summary (some (human_message content)) = []
final_summary (some (tool_message name content)) = []
final_summary none = []

abbrev pub observed : Option Text → Text → List Text → List Text
observed name [] rest = rest
observed name (c ∷ observation) rest =
    (text "- " ++ (text_or name (text "tool") ++ (text ": " ++ c ∷ observation))) ∷ rest

-- The observations of the tools, one line each.
unfoldable pub salvage : List LoopMessage → List Text
salvage [] = []
salvage (tool_message name content ∷ ms) = observed name (strip content) (salvage ms)
salvage (human_message content ∷ ms) = salvage ms
salvage (ai_message content has_tool_calls ∷ ms) = salvage ms

abbrev pub or_salvaged : Text → List LoopMessage → Text
or_salvaged [] ms = join b'\n' (salvage ms)
or_salvaged (c ∷ summary) ms = c ∷ summary

unfoldable pub extract_evidence : List LoopMessage → Text
extract_evidence ms = or_salvaged (final_summary (last_message ms)) ms

-- The last state that the stream yielded before it ended.
unfoldable pub last_state : List (List LoopMessage) → List LoopMessage
last_state [] = []
last_state (s ∷ []) = s
last_state (s ∷ t ∷ ss) = last_state (t ∷ ss)

abbrev pub on_stream : List (List LoopMessage) → StreamEnd → Text
on_stream states completed = extract_evidence (last_state states)
on_stream states recursion_error = extract_evidence (last_state states)
on_stream states failed = []

-- `has_tools` is whether the catalogue built any tool for the agent.
unfoldable pub gather_evidence : (has_tools : Bool) → Stream → Text
gather_evidence false stream = []
gather_evidence true stream = on_stream stream.states stream.end
