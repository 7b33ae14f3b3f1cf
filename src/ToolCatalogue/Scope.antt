-- ===== src/ToolCatalogue/Scope.antt =====
-- Which tools an agent's loop can be handed.
use langgraph_agents.Base.{
  ◌≡◌, refl, inl, inr, Bool, true, false, not, ◌&&◌, Bool-cases, Option, none, some, List, [], ◌∷◌,
  any, all, filter, All, arith, Text, text, text_eq, text_eq_iff, contains_text,
}
use mathlib.Core.Path.{subst}
use langgraph_agents.State.{
  AgentId, homelab_engineer, network_operator, storage_operator, smart_home_operator,
  observability_operator, auditor,
}
use langgraph_agents.ToolCatalogue.{
  agent_tool_names, is_wanted, ToolCache, discovered, ensure_tools_loaded, built_for,
  build_mcp_tools_for_agent,
}

abbrev pub read_verbs : List Text
read_verbs =
    text "get" ∷ text "list" ∷ text "query" ∷ text "search" ∷ text "describe" ∷ text "health" ∷ []

abbrev pub write_verbs : List Text
write_verbs =
    text "call"
    ∷ text "apply"
    ∷ text "delete"
    ∷ text "create"
    ∷ text "update"
    ∷ text "patch"
    ∷ text "restart"
    ∷ text "scale"
    ∷ text "exec"
    ∷ []

-- A tool whose name has a verb of reading, and none of writing.
unfoldable pub is_read_only : Text → Bool
is_read_only tool =
    any (λ v. contains_text v tool) read_verbs && not (any (λ v. contains_text v tool) write_verbs)

names-read_only : (a : AgentId) → all is_read_only (agent_tool_names a) ≡ true
unfolding agent_tool_names is_read_only contains_text
names-read_only auditor = refl
names-read_only network_operator = refl
names-read_only storage_operator = refl
names-read_only observability_operator = refl
names-read_only homelab_engineer = refl
names-read_only smart_home_operator = refl
names-read_only _ = refl

-- What holds of every text of a list holds of a text that occurs in it.
any-all :
    (p : Text → Bool) (xs : List Text) (t : Text)
    → all p xs ≡ true
    → any (text_eq t) xs ≡ true
    → p t ≡ true
any-all p [] t h w = cc
any-all p (x ∷ xs) t h w = elim (Bool-cases (text_eq t x)) [
  | inl same ↦ rw ((text_eq_iff t x).0 same) (ground arith)
  | inr other ↦ ground (arith, any-all p xs t)
]

-- A tool that the agent's list names, that the gateway's catalogue has, and that only reads.
abbrev pub IsScoped : AgentId → List Text → Text → Type 0
IsScoped agent catalog tool =
    (is_wanted (agent_tool_names agent) tool ≡ true)
    × (any (text_eq tool) catalog ≡ true)
    × (is_read_only tool ≡ true)

filter-IsScoped :
    (agent : AgentId) (catalog tools : List Text)
    → All (λ t. any (text_eq t) catalog ≡ true) tools
    → All (IsScoped agent catalog) (filter (is_wanted (agent_tool_names agent)) tools)
unfolding is_wanted
filter-IsScoped agent catalog [] h = tt
filter-IsScoped agent catalog (t ∷ tools) h =
    elim (Bool-cases (any (text_eq t) (agent_tool_names agent))) [
      | inl yes_wanted ↦ rw yes_wanted (
        (
          yes_wanted,
          h.0,
          any-all is_read_only (agent_tool_names agent) t (names-read_only agent) yes_wanted,
        ),
        filter-IsScoped agent catalog tools h.1,
      )
      | inr unwanted ↦ rw unwanted (filter-IsScoped agent catalog tools h.1)
    ]

among_more :
    (x : Text) (catalog tools : List Text)
    → All (λ t. any (text_eq t) catalog ≡ true) tools
    → All (λ t. any (text_eq t) (x ∷ catalog) ≡ true) tools
among_more x catalog [] h = tt
among_more x catalog (t ∷ tools) h = (ground (arith, h.0), among_more x catalog tools h.1)

among_self : (catalog : List Text) → All (λ t. any (text_eq t) catalog ≡ true) catalog
among_self [] = tt
among_self (t ∷ catalog) =
    (rw ((text_eq_iff t t).1 refl) refl, among_more t catalog catalog (among_self catalog))

-- The catalogue that a call sees: the one that is kept, or the one that the gateway answers now.
abbrev pub catalog_of : Option (List Text) → ToolCache → List Text
catalog_of answer none = discovered answer
catalog_of answer (some catalog) = catalog

built-IsScoped :
    (agent : AgentId) (wanted : List Text) (answer : Option (List Text)) (cache : ToolCache)
    → agent_tool_names agent ≡ wanted
    → All (IsScoped agent (catalog_of answer cache)) (built_for wanted answer cache).0
unfolding ensure_tools_loaded
built-IsScoped agent [] answer cache e = tt
built-IsScoped agent (w ∷ wanted) answer none e =
    subst
      (λ names.
        All (IsScoped agent (discovered answer)) (filter (is_wanted names) (discovered answer)))
      e
      (filter-IsScoped agent (discovered answer) (discovered answer)
        (among_self (discovered answer)))
built-IsScoped agent (w ∷ wanted) answer (some catalog) e =
    subst (λ names. All (IsScoped agent catalog) (filter (is_wanted names) catalog)) e
      (filter-IsScoped agent catalog catalog (among_self catalog))

-- Whatever the gateway answers and the process has kept, each tool that an agent's loop is handed is
-- on the agent's list, is in the catalogue, and only reads, by the verbs of its name.
pub build_mcp_tools_for_agent-IsScoped :
    (agent : AgentId) (answer : Option (List Text)) (cache : ToolCache)
    → All
        (IsScoped agent (catalog_of answer cache))
        (build_mcp_tools_for_agent agent answer cache).0
unfolding build_mcp_tools_for_agent
build_mcp_tools_for_agent-IsScoped agent answer cache =
    built-IsScoped agent (agent_tool_names agent) answer cache refl

-- The tools of a sequence of calls, each with what the gateway would answer at the time.
unfoldable pub builds : List (AgentId × Option (List Text)) → ToolCache → List (List Text)
builds [] cache = []
builds ((agent, answer) ∷ calls) cache =
    let (tools, after, asked) = build_mcp_tools_for_agent agent answer cache in
    tools ∷ builds calls after

empty_built :
    (wanted : List Text) (answer : Option (List Text))
    → built_for wanted answer (some []) ≡ ([], some [], false)
unfolding ensure_tools_loaded
empty_built [] answer = refl
empty_built (w ∷ wanted) answer = refl

builds-empty :
    (calls : List (AgentId × Option (List Text)))
    → All (λ tools. tools ≡ []) (builds calls (some []))
unfolding builds build_mcp_tools_for_agent
builds-empty [] = tt
builds-empty ((agent, answer) ∷ calls) =
    rw (empty_built (agent_tool_names agent) answer) (refl, builds-empty calls)

-- One failed discovery takes the tools away for the life of the process: after it, every call of every
-- agent is handed none, whatever the gateway would answer.
pub outage-lasts :
    (agent : AgentId) (w : Text) (wanted : List Text) (calls : List (AgentId × Option (List Text)))
    → agent_tool_names agent ≡ w ∷ wanted
    → All (λ tools. tools ≡ []) (builds ((agent, none) ∷ calls) none)
unfolding builds build_mcp_tools_for_agent ensure_tools_loaded
outage-lasts agent w wanted calls e = rw e (refl, builds-empty calls)
