-- ===== src/Mcp/Scope.antt =====
-- What the allowlists of mcp.py let each agent do.
use langgraph_agents.Base.{
  ◌≡◌, ◌⊎◌, refl, inl, inr, Bool, true, List, [], ◌∷◌, Text, all, arith, not,
}
use langgraph_agents.State.{AgentId, errand_runner}
use langgraph_agents.Mcp.{
  Capability, allowlists, is_allowed, agents_with_write_capability, Answer, call, permission_error,
}

abbrev reads_only : List Capability → Bool
reads_only = all (λ c. not c.write)

-- Every agent but errand-runner has read-only capabilities.
others-reads_only : (a : AgentId) → (a ≡ errand_runner) ⊎ (reads_only (allowlists a) ≡ true)
unfolding allowlists
others-reads_only errand_runner = inl refl
others-reads_only _ = inr refl

writers : agents_with_write_capability ≡ errand_runner ∷ []
unfolding agents_with_write_capability
writers = refl

-- A capability that the request matches.
abbrev pub Grants : Text → Text → List Capability → Type 0
Grants server method [] = ⊥
Grants server method (c ∷ cs) =
    (c.server ≡ server) × (c.method ≡ method) × (c.write ≡ true) ⊎ Grants server method cs

any-reads_only :
    (server method : Text) (cs : List Capability) → reads_only cs ≡ true → ¬ Grants server method cs
any-reads_only server method [] h g = g
any-reads_only server method (c ∷ cs) h (inl g) = ground arith
any-reads_only server method (c ∷ cs) h (inr g) = any-reads_only server method cs (ground arith) g

-- Any agent whose allowlist grants a write capability is errand-runner.
pub writer-errand_runner :
    (a : AgentId) (server method : Text) → Grants server method (allowlists a) → a ≡ errand_runner
writer-errand_runner a server method g = elim (others-reads_only a) [
  | inl e ↦ e
  | inr r ↦ absurd (any-reads_only server method (allowlists a) r g)
]

-- A request leaves the pod only for an allowed capability, and then it is that one request.
pub call-scoped :
    (a : AgentId) (server method : Text) (answer : Answer)
    → ((is_allowed a server method ≡ true)
        × ((call a server method answer).1 ≡ (server, method) ∷ []))
      ⊎ (call a server method answer ≡ (permission_error, []))
unfolding call
call-scoped a server method answer = ground arith
