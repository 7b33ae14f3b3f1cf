-- ===== src/Reporter/Fallback.antt =====
-- What a task shows when the model of the reporter is not available.
use langgraph_agents.Base.{
  ℕ, ◌≡◌, refl, Bool, true, false, Option, none, some, [], ◌∷◌, ◌⊎◌, inl, inr, ◌||◌, is_some,
  Bool-cases, Text, text, text_eq, text_or, strip, if◌then◌else◌,
}
use langgraph_agents.State.{FleetState}
use langgraph_agents.Reporter.{
  Repr, Upstream, direct, upstream_of, target_name, rendered, no_output, render, reporter_node,
}

-- Some text that is not empty, and that is the specialist's output if that is not blank.
abbrev pub IsShown : Text → Option Text → Type 0
IsShown output shown =
    (c : ℕ) × (t : Text) × (shown ≡ some (c ∷ t)) × ((output ≡ []) ⊎ (output ≡ c ∷ t))

module _ (persona task : Text) (r : Repr) where
  abbrev shown : Upstream → FleetState → Option Text
  shown u s = some (render persona task r (λ system ask. none) u s)

  IsShown-blank :
      (agent : Text) (s : FleetState) (b : Bool)
      → IsShown [] (
          some (
            if b
            then rendered (record { agent = agent; output = [] }) none
            else no_output (record { agent = agent; output = [] }) s.task_id))
  IsShown-blank agent s true = (_, _, refl, inl refl)
  IsShown-blank agent s false = (_, _, refl, inl refl)

  shown-IsShown :
      (content agent output : Text) (s : FleetState)
      → IsShown output (shown (direct content agent output) s)
  unfolding direct
  shown-IsShown content agent (c ∷ output) s = (c, output, refl, inr refl)
  shown-IsShown [] agent [] s = elim (Bool-cases (text_eq agent (text "reporter"))) [
    | inl e ↦
        rw e (IsShown-blank (text "(direct)") s (is_some s.rejection || is_some s.approval_request))
    | inr e ↦ rw e (IsShown-blank agent s (is_some s.rejection || is_some s.approval_request))
  ]
  shown-IsShown (d ∷ content) agent [] s = elim (Bool-cases (text_eq agent (text "reporter"))) [
    | inl e ↦ rw e (d, content, refl, inl refl)
    | inr e ↦ rw e (IsShown-blank agent s (is_some s.rejection || is_some s.approval_request))
  ]

  -- While its model is not available, the reporter still shows some text, and a specialist's output
  -- that is not blank is shown whole, without its surrounding blanks.
  pub reporter_node-IsShown :
      (s : FleetState)
      → IsShown
          (strip (text_or s.output []))
          (reporter_node persona task r (λ system ask. none) s).output
  unfolding reporter_node upstream_of
  reporter_node-IsShown s =
      shown-IsShown s.content (target_name s.target_agent) (strip (text_or s.output [])) s
