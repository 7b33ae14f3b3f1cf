-- ===== src/Admin/Approvals.antt =====
-- A verdict of the phone against the errand-runner's own checks.
use langgraph_agents.Base.{
  ℕ, ◌≡◌, refl, sym, ap, ◌∙◌, Bool, true, false, Option, none, some, List, [], ◌∷◌, Text, text_or,
  split_once, free_of,
}
use langgraph_agents.State.{ApprovalRequest, FleetState, errand_runner}
use langgraph_agents.Mcp.{call}
use langgraph_agents.ErrandRunner.{World, Verdict, attempted, not_granted, errand_runner_node}
use langgraph_agents.ErrandRunner.Accepts.{
  IsExecutable, IsAccepted, granted-executes, denied-refuses, refused-stays,
}
use langgraph_agents.ErrandRunner.Token.{
  Grant, mint, token_payload, verify_approval_token, verify-mint, IsPlain,
}
use langgraph_agents.Approval.{is_smoke}
use langgraph_agents.Admin.{
  InterruptValue, AdminApp, AdminGraph, minted, approval_token, mint_for, sign, sign_target,
  on_interrupt, on_admin_graph, resume_minted, resume_with_verdict, approve_task, deny_task,
  cancelled,
}

-- The value that the node pauses with.
abbrev pub interrupt_of : ApprovalRequest → InterruptValue
interrupt_of req = record { action_class = some req.action_class; target = req.target }

abbrev pub grant_of : FleetState → ApprovalRequest → Text → Text → Grant
grant_of state req server method = record {
  task_id = state.task_id;
  action_class = req.action_class;
  server = server;
  method = method;
}

-- The application of a production task: a fleet graph that shows the paused request, and the key
-- that the errand-runner verifies with.
pub record Serves (app : AdminApp) (w : World) (state : FleetState) (req : ApprovalRequest)
    (graph : AdminGraph) (c : ℕ) (k : Text) : Type 0 where
  pub production : is_smoke state.task_id ≡ false
  pub has_graph : app.fleet_graph ≡ some graph
  pub paused : graph.interrupt state.task_id ≡ some (interrupt_of req)
  pub app_key : app.signing_key ≡ some (c ∷ k)
  pub same_key : w.signing_key ≡ some (c ∷ k)

module _ (hmac : Text → Text → Text) (nonce : Text) (now : ℕ) (app : AdminApp) (w : World)
    (state : FleetState) (req : ApprovalRequest) (graph : AdminGraph) (c : ℕ) (k : Text)
    (s : Serves app w state req graph c k) where
  sign-real :
      (server method : Text)
      → sign hmac nonce state.task_id req.action_class server method (some (c ∷ k))
        ≡ minted (mint hmac (c ∷ k) (grant_of state req server method) nonce)
  unfolding sign
  sign-real server method = refl

  resumed-minted :
      (granted : Bool) (token : Text)
      → approval_token hmac nonce granted state.task_id (interrupt_of req) (some (c ∷ k))
        ≡ minted token
      → (resume_with_verdict hmac nonce now app state.task_id granted).resumed_with
        ≡ some (record { granted = granted; deferred = false; approval_token = some token })
  unfolding resume_with_verdict on_admin_graph on_interrupt resume_minted
  resumed-minted granted token m =
      rw (s.production, s.has_graph, on_admin_graph)
        (rw (s.paused, on_interrupt) (rw (s.app_key, m, resume_minted)))

  token-approve :
      (server method : Text)
      → split_once b'.' req.target ≡ some (server, method)
      → approval_token hmac nonce true state.task_id (interrupt_of req) (some (c ∷ k))
        ≡ minted (mint hmac (c ∷ k) (grant_of state req server method) nonce)
  unfolding approval_token mint_for
  token-approve server method t =
      ap (sign_target hmac nonce state.task_id req.action_class (some (c ∷ k))) t
      ∙ sign-real server method

abbrev pub granted_with : Text → Verdict
granted_with token = record { granted = true; deferred = false; approval_token = some token }

text_or-some : (t : Text) → text_or (some t) [] ≡ t
text_or-some [] = refl
text_or-some (c ∷ t) = refl

pub IsAccepted-of :
    (hmac : Text → Text → Text) (w : World) (state : FleetState) (req : ApprovalRequest)
    (server method : Text) (o : Option Text) (token key : Text)
    → o ≡ some token
    → w.signing_key ≡ some key
    → verify_approval_token hmac token (grant_of state req server method) key ≡ true
    → IsAccepted hmac w state req server method o
IsAccepted-of hmac w state req server method o token key p q h =
    let a : text_or o [] ≡ token = ap (λ (x : Option Text). text_or x []) p ∙ text_or-some token in
    let b : text_or w.signing_key [] ≡ key =
      ap (λ (x : Option Text). text_or x []) q ∙ text_or-some key in
    ap
      (λ (t : Text).
        verify_approval_token hmac t (grant_of state req server method) (text_or w.signing_key []))
      a
    ∙ ap (verify_approval_token hmac token (grant_of state req server method)) b
    ∙ h

-- A production task that waits for its first verdict on an executable action: the verdict that
-- `approve` resumes it with makes the errand-runner execute exactly that action, whatever the nonce
-- and whatever the graph answers, where no part of the grant contains the separator and the
-- signature contains no colon.
pub approve-executes :
    (hmac : Text → Text → Text) (nonce : Text) (now : ℕ) (app : AdminApp) (w : World)
    (state : FleetState) (req : ApprovalRequest) (graph : AdminGraph) (c : ℕ) (k : Text)
    (server method : Text) (v : Verdict) (rest : List Verdict)
    → Serves app w state req graph c k
    → IsExecutable state req server method
    → IsPlain (grant_of state req server method)
    → free_of b':' (hmac (c ∷ k) (token_payload (grant_of state req server method) nonce)) ≡ true
    → (approve_task hmac nonce now app state.task_id).resumed_with ≡ some v
    → errand_runner_node hmac w state (v ∷ rest) ≡ (
      attempted server method (call errand_runner server method w.answer).0,
      (server, method) ∷ [],
    )
unfolding approve_task
approve-executes hmac nonce now app w state req graph c k server method v rest s x plain hex e =
    let g = grant_of state req server method in
    let f : some v ≡ some (granted_with (mint hmac (c ∷ k) g nonce)) =
      sym e
      ∙ resumed-minted hmac nonce now app w state req graph c k s true (mint hmac (c ∷ k) g nonce)
          (token-approve hmac nonce now app w state req graph c k s server method x.target) in
    granted-executes hmac w state req v rest server method x (cc f) (cc f) (
      IsAccepted-of hmac w state req server method v.approval_token (mint hmac (c ∷ k) g nonce)
        (c ∷ k) (cc f) s.same_key (verify-mint hmac (c ∷ k) g nonce plain hex))

-- A verdict of `deny` makes the node refuse, whatever verdicts follow.
pub deny-refuses :
    (hmac : Text → Text → Text) (nonce : Text) (now : ℕ) (app : AdminApp) (w : World)
    (state : FleetState) (req : ApprovalRequest) (graph : AdminGraph) (c : ℕ) (k : Text)
    (v : Verdict) (rest : List Verdict)
    → Serves app w state req graph c k
    → state.approval_request ≡ some req
    → state.approval_granted ≡ none
    → (deny_task hmac nonce now app state.task_id).resumed_with ≡ some v
    → errand_runner_node hmac w state (v ∷ rest) ≡ (not_granted, [])
unfolding deny_task approval_token
deny-refuses hmac nonce now app w state req graph c k v rest s r u e =
    let f : some v ≡ some (record { granted = false; deferred = false; approval_token = some [] }) =
      sym e ∙ resumed-minted hmac nonce now app w state req graph c k s false [] refl in
    denied-refuses hmac w state req v rest r u (cc f) (cc f)

-- A task that was cancelled while it waited executes nothing when it is resumed, whatever verdicts
-- are given, those of its pending approval included.
pub cancelled-refuses :
    (hmac : Text → Text → Text) (w : World) (state : FleetState) (reason : Text)
    (verdicts : List Verdict) (req : ApprovalRequest)
    → state.approval_request ≡ some req
    → errand_runner_node hmac w (cancelled reason state) verdicts ≡ (not_granted, [])
cancelled-refuses hmac w state reason verdicts req r =
    refused-stays hmac w (cancelled reason state) verdicts req r refl
