-- ===== src/ErrandRunner/Refusals.antt =====
-- What the errand-runner node refuses, whatever the verdicts.
use mathlib.Core.Bool.{false≢true}
use langgraph_agents.Base.{
  ◌≡◌, refl, sym, ap, ◌∙◌, inl, inr, true, false, none, some, List, [], ◌∷◌, Text, text, text_eq,
  split_once, Bool-cases, All,
}
use langgraph_agents.State.{ApprovalRequest, FleetState, errand_runner}
use langgraph_agents.Mcp.{is_allowed, allowlists}
use langgraph_agents.ErrandRunner.{
  World, Verdict, paused, first_approval, await_verdict, errand_runner_node, approve, after_first,
  on_request,
}
use langgraph_agents.ErrandRunner.Execution.{acts, node-IsAuthorised}

-- `_K8S_WRITE_TARGET` of the operator nodes.
abbrev pub k8s_write_target : Text
k8s_write_target = text "kubectl-mcp.kubectl_apply"

k8s_split : split_once b'.' k8s_write_target ≡ some (text "kubectl-mcp", text "kubectl_apply")
unfolding split_once
k8s_split = refl

k8s_not_allowed : is_allowed errand_runner (text "kubectl-mcp") (text "kubectl_apply") ≡ false
unfolding is_allowed allowlists text_eq
k8s_not_allowed = refl

-- No approval makes the node act on the target that the operator nodes propose: it is not in the
-- allowlist, so that every such request is refused after its approval.
pub k8s_write_refused :
    (hmac : Text → Text → Text) (w : World) (state : FleetState) (verdicts : List Verdict)
    (req : ApprovalRequest)
    → state.approval_request ≡ some req
    → req.target ≡ k8s_write_target
    → acts (errand_runner_node hmac w state verdicts) ≡ false
k8s_write_refused hmac w state verdicts req e t =
    elim (Bool-cases (acts (errand_runner_node hmac w state verdicts))) [
      | inr still ↦ still
      | inl acting ↦
          let a = node-IsAuthorised hmac w state verdicts acting in
          let same : a.req ≡ req = cc (a.requested) in
          let target : some (text "kubectl-mcp", text "kubectl_apply") ≡ some (a.server, a.method) =
            sym k8s_split
            ∙ ap (split_once b'.') (sym t ∙ ap (λ (r : ApprovalRequest). r.target) (sym same))
            ∙ a.cleared.target in
          absurd (false≢true (sym k8s_not_allowed ∙ cc target ∙ a.cleared.allowed))
    ]

await_deferred : (vs : List Verdict) → All (λ v. v.deferred ≡ true) vs → await_verdict vs ≡ none
unfolding await_verdict
await_deferred [] h = refl
await_deferred (v ∷ vs) h = rw (h.0) (await_deferred vs h.1)

-- However often a request is deferred, the node pauses again for a first verdict, and does nothing.
pub defer-paused :
    (hmac : Text → Text → Text) (w : World) (state : FleetState) (verdicts : List Verdict)
    (req : ApprovalRequest)
    → state.approval_request ≡ some req
    → state.approval_granted ≡ none
    → All (λ v. v.deferred ≡ true) verdicts
    → errand_runner_node hmac w state verdicts ≡ (paused first_approval, [])
unfolding errand_runner_node approve on_request
defer-paused hmac w state verdicts req e g h =
    rw (e, on_request)
      (rw (g, approve) (rw (await_deferred verdicts h) (unfold after_first in refl)))
