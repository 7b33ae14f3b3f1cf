-- ===== src/Evidence/Examples.antt =====
-- A loop that is cut off after one tool call.
use langgraph_agents.Base.{◌≡◌, refl, true, none, List, [], ◌∷◌, ◌++◌, Text, text, strip}
use langgraph_agents.Evidence.{
  LoopMessage, human_message, ai_message, tool_message, recursion_error, failed, gather_evidence,
  extract_evidence, salvage, last_state, last_message,
}
use langgraph_agents.Evidence.Gathering.{line_of, gather_evidence-keeps}

abbrev asked : LoopMessage
asked = human_message (text "GATHER EVIDENCE FOR:")

abbrev calling : LoopMessage
calling = ai_message (text "") true

abbrev result : LoopMessage
result = tool_message none (text " 3 pods ")

abbrev states : List (List LoopMessage)
states = (asked ∷ []) ∷ (asked ∷ calling ∷ result ∷ calling ∷ []) ∷ []

salvaged :
    gather_evidence true (record { states = states; end = recursion_error }) ≡ text "- tool: 3 pods"
unfolding gather_evidence extract_evidence salvage last_state last_message strip
salvaged = refl

failed_empty : gather_evidence true (record { states = states; end = failed }) ≡ []
unfolding gather_evidence
failed_empty = refl

gather_evidence-keeps_example :
    (before : Text) × (after : Text) × (gather_evidence true
        (record { states = states; end = recursion_error })
      ≡ before ++ (line_of none (text "3 pods") ++ after))
unfolding last_state last_message strip
gather_evidence-keeps_example =
    gather_evidence-keeps states (asked ∷ calling ∷ []) (calling ∷ []) none (text " 3 pods ") b'3'
      (text " pods") refl refl refl
