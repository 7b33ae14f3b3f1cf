-- ===== src/Personas/Sections.antt =====
-- When a persona fails to load.
use langgraph_agents.Base.{ℕ, ◌≡◌, Bool-cases, inl, inr, some, ◌∷◌, ◌≢◌, Text, text, arith}
use langgraph_agents.State.{AgentId, agent_name}
use langgraph_agents.Chat.{value_error}
use langgraph_agents.Personas.{Workspaces, with_section, persona_sections, load_persona}

-- With a shared SOUL.md that is not empty, no workspace counts as empty: a persona fails to load
-- only if its directory does not exist.
pub load_persona-shared :
    (w : Workspaces) (agent : AgentId) (c : ℕ) (soul : Text)
    → w.read (text "_shared") (text "SOUL.md") ≡ some (c ∷ soul)
    → load_persona w agent ≢ value_error
unfolding load_persona persona_sections with_section
load_persona-shared w agent c soul shared raised = elim (Bool-cases (w.is_dir (agent_name agent))) [
  | inl there ↦ ground (arith, there, shared, raised)
  | inr missing ↦ ground (arith, missing, raised)
]
