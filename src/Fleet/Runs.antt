-- ===== src/Fleet/Runs.antt =====
-- The runs of the fleet graph: with nodes that add no rejection they end.
use mathlib.Core.Bool.{false≢true}
use langgraph_agents.Base.{
  ℕ, suc, if◌then◌else◌, ap, ◌≡◌, ◌⊎◌, refl, inl, inr, Bool, true, false, Option, none, some, List,
  arith, Text, ◌∷◌, leb, Bool-cases,
}
use langgraph_agents.State.{
  AgentId, triager, supervisor, errand_runner, reporter, FleetState, TriageDecision,
}
use langgraph_agents.Fleet.{
  Next, goto, finish, unmapped, next, route_after_triage, route_after_specialist,
  route_after_supervisor, triage_map, supervisor_map, Nodes, run_node, run_from, run, End, ended,
  key_error, is_triager, is_supervisor, Disposition, reroute, escalate_to_user, SupervisorDecision,
  decided_by, supervisor_node, triager_node, cascade_limit,
}

-- The nodes other than the triager and the supervisor add no rejection to a state that has none.
abbrev pub IsQuiet : Nodes → Type 0
IsQuiet nodes =
    (a : AgentId) (s : FleetState) → s.rejection ≡ none → (nodes.other a s).rejection ≡ none

-- The run ended at the reporter, or at a re-route to the triager, for which there is no edge.
abbrev pub IsOver : List AgentId × End × FleetState → Type 0
IsOver r = (r.1 ≡ ended) ⊎ (r.1 ≡ key_error triager)

-- Where the edges of a node lead.
abbrev Leads : (AgentId → Bool) → Next → Type 0
Leads p (goto b) = p b ≡ true
Leads p finish = Unit
Leads p (unmapped b) = b ≡ triager

abbrev is_reporter : AgentId → Bool
is_reporter reporter = true
is_reporter _ = false

abbrev is_last_two : AgentId → Bool
is_last_two reporter = true
is_last_two errand_runner = true
is_last_two _ = false

abbrev is_worker : AgentId → Bool
is_worker triager = false
is_worker supervisor = false
is_worker _ = true

abbrev is_not_triager : AgentId → Bool
is_not_triager triager = false
is_not_triager _ = true

supervisor_map-Leads :
    (o : Option AgentId)
    → Leads is_worker (
        supervisor_map (elim o [ none ↦ none | some a ↦ if is_supervisor a then none else some a ]))
supervisor_map-Leads none = refl
supervisor_map-Leads (some triager) = refl
supervisor_map-Leads (some _) = refl

supervisor-Leads : (s : FleetState) → Leads is_worker (next supervisor s)
unfolding next route_after_supervisor
supervisor-Leads s = supervisor_map-Leads s.target_agent

triage_map-Leads :
    (o : Option AgentId)
    → Leads is_not_triager
        (triage_map (elim o [ none ↦ none | some a ↦ if is_triager a then none else some a ]))
triage_map-Leads none = refl
triage_map-Leads (some triager) = refl
triage_map-Leads (some _) = refl

triager-Leads : (s : FleetState) → Leads is_not_triager (next triager s)
unfolding next route_after_triage
triager-Leads s = triage_map-Leads s.target_agent

worker-Leads :
    (a : AgentId) (s : FleetState)
    → is_worker a ≡ true
    → s.rejection ≡ none
    → Leads is_last_two (next a s)
unfolding next route_after_specialist
worker-Leads triager s w h = cc
worker-Leads supervisor s w h = cc
worker-Leads reporter s w h = tt
worker-Leads errand_runner s w h = refl
worker-Leads _ s w h = ground arith

last_two-Leads :
    (a : AgentId) (s : FleetState) → is_last_two a ≡ true → Leads is_reporter (next a s)
unfolding next
last_two-Leads reporter s w = tt
last_two-Leads errand_runner s w = refl
last_two-Leads _ s w = cc

reporter-Leads :
    (a : AgentId) (s : FleetState) → is_reporter a ≡ true → Leads (λ _. false) (next a s)
unfolding next
reporter-Leads reporter s w = tt
reporter-Leads _ s w = cc

decided_by-quiet :
    (x : Disposition) (b : Option AgentId) (m : Option Text) (d : SupervisorDecision)
    (s : FleetState)
    → s.rejection ≡ none
    → (decided_by x b m d s).rejection ≡ none
unfolding decided_by
decided_by-quiet reroute (some b) m d s h = refl
decided_by-quiet escalate_to_user b (some (c ∷ m)) d s h = h
decided_by-quiet _ b m d s h = h

supervisor_node-quiet :
    (d : SupervisorDecision) (s : FleetState)
    → s.rejection ≡ none
    → (supervisor_node d s).rejection ≡ none
unfolding supervisor_node
supervisor_node-quiet d s h = elim (Bool-cases (leb cascade_limit s.cascade_count)) [
  | inl over ↦ rw over h
  | inr under ↦ rw under (decided_by-quiet d.disposition d.new_target_agent d.user_message d s h)
]

triager_node-quiet :
    (d : TriageDecision) (s : FleetState) → s.rejection ≡ none → (triager_node d s).rejection ≡ none
unfolding triager_node
triager_node-quiet d s h = ground (arith, h)

run_node-quiet :
    (nodes : Nodes) (a : AgentId) (s : FleetState)
    → IsQuiet nodes
    → s.rejection ≡ none
    → (run_node nodes a s).rejection ≡ none
unfolding run_node
run_node-quiet nodes triager s q h = triager_node-quiet (nodes.triage s) s h
run_node-quiet nodes supervisor s q h = supervisor_node-quiet (nodes.supervise s) s h
run_node-quiet nodes a s q h = q a s h

-- One step of a run, from what holds at every node that its edge may lead to.
step-IsOver :
    (nodes : Nodes) (fuel : ℕ) (a : AgentId) (s : FleetState) (p : AgentId → Bool) (n : Next)
    → next a (run_node nodes a s) ≡ n
    → Leads p n
    → ((b : AgentId) → p b ≡ true → IsOver (run_from nodes fuel b (run_node nodes a s)))
    → IsOver (run_from nodes (suc fuel) a s)
unfolding run_from
step-IsOver nodes fuel a s p (goto b) e l h = rw (e, run_from) (h b l)
step-IsOver nodes fuel a s p finish e l h = rw (e, run_from) (inl refl)
step-IsOver nodes fuel a s p (unmapped b) e l h = rw (e, run_from) (inr (ap key_error l))

module _ (nodes : Nodes) (quiet : IsQuiet nodes) where
  reporter-IsOver :
      (fuel : ℕ) (a : AgentId) (s : FleetState)
      → is_reporter a ≡ true
      → IsOver (run_from nodes (suc fuel) a s)
  reporter-IsOver fuel a s w =
      step-IsOver nodes fuel a s (λ _. false) _ refl (reporter-Leads a _ w)
        (λ _ e. absurd (false≢true e))

  last_two-IsOver :
      (fuel : ℕ) (a : AgentId) (s : FleetState)
      → is_last_two a ≡ true
      → IsOver (run_from nodes (suc (suc fuel)) a s)
  last_two-IsOver fuel a s w =
      step-IsOver nodes (suc fuel) a s is_reporter _ refl (last_two-Leads a _ w)
        (λ b. reporter-IsOver fuel b _)

  worker-IsOver :
      (fuel : ℕ) (a : AgentId) (s : FleetState)
      → s.rejection ≡ none
      → is_worker a ≡ true
      → IsOver (run_from nodes (suc (suc (suc fuel))) a s)
  worker-IsOver fuel a s h w =
      step-IsOver nodes (suc (suc fuel)) a s is_last_two _ refl
        (worker-Leads a _ w (run_node-quiet nodes a s quiet h)) (λ b. last_two-IsOver fuel b _)

  any-IsOver :
      (fuel : ℕ) (a : AgentId) (s : FleetState)
      → s.rejection ≡ none
      → is_not_triager a ≡ true
      → IsOver (run_from nodes (suc (suc (suc (suc fuel)))) a s)
  any-IsOver fuel triager s h w = cc
  any-IsOver fuel supervisor s h w =
      step-IsOver nodes (suc (suc (suc fuel))) supervisor s is_worker _ refl (supervisor-Leads _)
        (λ b. worker-IsOver fuel b _ (run_node-quiet nodes supervisor s quiet h))
  any-IsOver fuel a s h w = worker-IsOver (suc fuel) a s h refl

-- With nodes that reject nothing, five steps are enough for a run from any state without a rejection,
-- whatever the triager and the supervisor decide: it ends at the reporter, or at a re-route to the
-- triager, for which the supervisor's route map has no entry.
pub run-IsOver :
    (nodes : Nodes) (fuel : ℕ) (s : FleetState)
    → IsQuiet nodes
    → s.rejection ≡ none
    → IsOver (run nodes (suc (suc (suc (suc (suc fuel))))) s)
unfolding run
run-IsOver nodes fuel s quiet h =
    step-IsOver nodes (suc (suc (suc (suc fuel)))) triager s is_not_triager _ refl (triager-Leads _)
      (λ b. any-IsOver nodes quiet fuel b _ (run_node-quiet nodes triager s quiet h))
