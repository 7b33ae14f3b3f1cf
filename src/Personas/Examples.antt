-- ===== src/Personas/Examples.antt =====
-- Runs of the persona loader.
use langgraph_agents.Base.{
  ◌≡◌, refl, true, false, Option, none, some, [], Text, text, text_eq, if◌then◌else◌,
}
use langgraph_agents.State.{agent_name, coder}
use langgraph_agents.Chat.{persona, file_not_found, value_error}
use langgraph_agents.Personas.{
  Workspaces, with_section, persona_sections, join_sections, load_persona,
}

-- Only `_shared` has files, and USER.md is one of them.
abbrev shared_only : (dir file : Text) → Option Text
shared_only dir file =
    if text_eq dir (text "_shared")
    then some file
    else if text_eq file (text "USER.md")
    then some []
    else none

abbrev workspaces : Workspaces
workspaces = record { is_dir = λ _. true; read = shared_only }

shared_test : load_persona workspaces coder ≡ persona (text "SOUL.md")
unfolding load_persona persona_sections with_section join_sections text_eq agent_name
shared_test = refl

empty_test : load_persona (record workspaces { read = λ _ _. none }) coder ≡ value_error
unfolding load_persona persona_sections with_section
empty_test = refl

whole_test :
    load_persona (record workspaces { read = λ _ file. some file }) coder
    ≡ persona (
        text
          "SOUL.md\n\n---\n\nSOUL.md\n\n---\n\nIDENTITY.md\n\n---\n\nAGENTS.md\n\n---\n\nUSER.md")
unfolding load_persona persona_sections with_section join_sections
whole_test = refl

missing_test : load_persona (record workspaces { is_dir = λ _. false }) coder ≡ file_not_found
unfolding load_persona
missing_test = refl
