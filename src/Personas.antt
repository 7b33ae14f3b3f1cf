-- ===== src/Personas.antt =====
-- src/agents/personas.py (`load_persona`): the system prompt of an agent from the files of its
-- workspace. The directories and the files are the arguments `is_dir` and `read`, and the cache is
-- left out, as the files are the same for the whole of a run.
pub mod Sections
pub mod Examples
use langgraph_agents.Base.{
  Bool, true, false, Option, none, some, List, [], ◌∷◌, ◌++◌, if◌then◌else◌, Text, text,
}
use langgraph_agents.State.{AgentId, agent_name}
use langgraph_agents.Chat.{Persona, persona, file_not_found, value_error}

pub record Workspaces : Type 0 where
  pub is_dir : (dir : Text) → Bool
  pub read : (dir file : Text) → Option Text

-- A file that is missing or empty is no section.
unfoldable pub with_section : Option Text → List Text → List Text
with_section none rest = rest
with_section (some []) rest = rest
with_section (some (c ∷ body)) rest = (c ∷ body) ∷ rest

abbrev pub own_sections : Workspaces → Text → List Text → List Text
own_sections w dir [] = []
own_sections w dir (file ∷ files) = with_section (w.read dir file) (own_sections w dir files)

abbrev pub own_files : List Text
own_files = text "SOUL.md" ∷ text "IDENTITY.md" ∷ text "AGENTS.md" ∷ text "USER.md" ∷ []

unfoldable pub persona_sections : Workspaces → Text → List Text
persona_sections w dir =
    with_section (w.read (text "_shared") (text "SOUL.md")) (own_sections w dir own_files)

-- `"\n\n---\n\n".join`
unfoldable pub join_sections : (first : Text) (rest : List Text) → Text
join_sections s [] = s
join_sections s (next ∷ rest) = s ++ text "\n\n---\n\n" ++ join_sections next rest

abbrev pub composed : List Text → Persona
composed [] = value_error
composed (s ∷ rest) = persona (join_sections s rest)

unfoldable pub load_persona : Workspaces → AgentId → Persona
load_persona w agent =
    if w.is_dir (agent_name agent)
    then composed (persona_sections w (agent_name agent))
    else file_not_found
