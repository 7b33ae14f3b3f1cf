-- ===== src/ErrandRunner/Execution.antt =====
-- What has been checked whenever the errand-runner node sends an MCP request.
use mathlib.Core.Bool.{false≢true}
use langgraph_agents.Base.{
  ◌≡◌, ◌⊎◌, ap, ◌∙◌, refl, inl, inr, Bool, true, false, Option, none, some, List, [], ◌∷◌, arith,
  Text, text_or, is_some, split_once, Bool-cases,
}
use langgraph_agents.State.{ApprovalRequest, FleetState, errand_runner}
use langgraph_agents.Mcp.{is_allowed}
use langgraph_agents.ErrandRunner.Token.{verify_approval_token}
use langgraph_agents.ErrandRunner.{
  World, Verdict, Outcome, smoke, await_verdict, is_class_c, authorised, dispatch, latest,
  after_second, confirm, two_person, after_verdict, after_first, on_request, approve,
  errand_runner_node,
}

abbrev pub sends : Outcome × List (Text × Text) → Bool
sends (o, []) = false
sends (o, r ∷ rs) = true

-- The outcome touches the outside: an MCP request, or the files of the smoke run.
abbrev pub acts : Outcome × List (Text × Text) → Bool
acts (smoke _, rs) = true
acts (o, []) = false
acts (o, r ∷ rs) = true

-- The checks on the target and the token of the verdict that was the last to be given.
pub record IsCleared (hmac : Text → Text → Text) (w : World) (state : FleetState)
    (req : ApprovalRequest) (token : Option Text) (server method : Text) : Type 0 where
  pub target : split_once b'.' req.target ≡ some (server, method)
  pub allowed : is_allowed errand_runner server method ≡ true
  pub signed :
      verify_approval_token hmac
        (text_or token [])
        (record {
          task_id = state.task_id;
          action_class = req.action_class;
          server = server;
          method = method;
        })
        (text_or w.signing_key [])
      ≡ true

abbrev Cleared : (Text → Text → Text) → World → FleetState → ApprovalRequest → Option Text → Type 0
Cleared hmac w state req token =
    (server : Text) × (method : Text) × IsCleared hmac w state req token server method

-- A verdict with the grant: the first one that is not a deferral.
abbrev pub IsGrantedBy : List Verdict → Verdict → List Verdict → Type 0
IsGrantedBy vs v rest = (await_verdict vs ≡ some (v, rest)) × (v.granted ≡ true)

module _ (hmac : Text → Text → Text) (w : World) (state : FleetState) (req : ApprovalRequest) where
  dispatch-IsCleared :
      (token : Option Text) (o : Option (Text × Text))
      → split_once b'.' req.target ≡ o
      → acts (dispatch hmac w state req token o) ≡ true
      → Cleared hmac w state req token
  unfolding dispatch
  dispatch-IsCleared token none e h = cc
  dispatch-IsCleared token (some (server, method)) e h =
      (server, method, record { target = e; allowed = ground arith; signed = ground arith })

  dispatch-undo :
      (token : Option Text) (o : Option (Text × Text))
      → sends (dispatch hmac w state req token o) ≡ true
      → (is_class_c req.action_class ≡ false) ⊎ (is_some req.undo_path ≡ true)
  unfolding dispatch authorised
  dispatch-undo token none h = cc
  dispatch-undo token (some (server, method)) h = ground arith

-- The first gate: a grant in the state, or the first verdict that is no deferral.
pub data FirstGate (state : FleetState) (verdicts : List Verdict)
    : Option Text → List Verdict → Type 0 where
  preapproved :
      state.approval_granted ≡ some true → FirstGate state verdicts state.approval_token verdicts
  granted_by :
      (v : Verdict) (rest : List Verdict)
      → state.approval_granted ≡ none
      → IsGrantedBy verdicts v rest
      → FirstGate state verdicts v.approval_token rest

-- The second gate: not asked for, or a further grant among the later verdicts.
pub data SecondGate (req : ApprovalRequest) (rest : List Verdict) (token : Option Text)
    : Option Text → Type 0 where
  single : two_person req ≡ false → SecondGate req rest token token
  confirmed_by :
      (v : Verdict) (later : List Verdict)
      → two_person req ≡ true
      → IsGrantedBy rest v later
      → SecondGate req rest token (latest v.approval_token token)

-- What stands behind an action of the node.
pub record IsAuthorised (hmac : Text → Text → Text) (w : World) (state : FleetState)
    (verdicts : List Verdict) : Type 0 where
  pub req : ApprovalRequest
  pub requested : state.approval_request ≡ some req
  pub first_token : Option Text
  pub rest : List Verdict
  pub first : FirstGate state verdicts first_token rest
  pub token : Option Text
  pub second : SecondGate req rest first_token token
  pub server : Text
  pub method : Text
  pub cleared : IsCleared hmac w state req token server method

-- The part of it that follows the first gate.
abbrev Confirmed :
    (Text → Text → Text)
    → World
    → FleetState
    → ApprovalRequest
    → List Verdict
    → Option Text
    → Type 0
Confirmed hmac w state req rest first_token =
    (token : Option Text) × SecondGate req rest first_token token × Cleared hmac w state req token

module _ (hmac : Text → Text → Text) (w : World) (state : FleetState) (req : ApprovalRequest) where
  after_second-Confirmed :
      (token : Option Text) (verdicts : List Verdict) (o : Option (Verdict × List Verdict))
      → await_verdict verdicts ≡ o
      → two_person req ≡ true
      → acts (after_second hmac w state req token o) ≡ true
      → Confirmed hmac w state req verdicts token
  unfolding after_second
  after_second-Confirmed token verdicts none e two h = cc
  after_second-Confirmed token verdicts (some (v, later)) e two h = elim (Bool-cases v.granted) [
    | inl yes_granted ↦ (
      latest v.approval_token token,
      confirmed_by v later two (e, yes_granted),
      dispatch-IsCleared hmac w state req _ _ refl (rw yes_granted at h),
    )
    | inr denied ↦ absurd (false≢true (rw denied at h))
  ]

  confirm-Confirmed :
      (token : Option Text) (verdicts : List Verdict)
      → acts (confirm hmac w state req token verdicts) ≡ true
      → Confirmed hmac w state req verdicts token
  unfolding confirm
  confirm-Confirmed token verdicts h = elim (Bool-cases (two_person req)) [
    | inl two ↦
        after_second-Confirmed token verdicts (await_verdict verdicts) refl two (rw two at h)
    | inr one ↦ (token, single one, dispatch-IsCleared hmac w state req token _ refl (rw one at h))
  ]

  after_verdict-Confirmed :
      (granted : Bool) (token : Option Text) (verdicts : List Verdict)
      → acts (after_verdict hmac w state req granted token verdicts) ≡ true
      → (granted ≡ true) × Confirmed hmac w state req verdicts token
  unfolding after_verdict
  after_verdict-Confirmed true token verdicts h = (refl, confirm-Confirmed token verdicts h)
  after_verdict-Confirmed false token verdicts h = cc

module _ (hmac : Text → Text → Text) (w : World) (state : FleetState)
    (verdicts : List Verdict) where
  authorise :
      (req : ApprovalRequest) (first_token : Option Text) (rest : List Verdict)
      → state.approval_request ≡ some req
      → FirstGate state verdicts first_token rest
      → Confirmed hmac w state req rest first_token
      → IsAuthorised hmac w state verdicts
  authorise req first_token rest e gate (token, second, (server, method, cleared)) = record {
    req = req;
    requested = e;
    first_token = first_token;
    rest = rest;
    first = gate;
    token = token;
    second = second;
    server = server;
    method = method;
    cleared = cleared;
  }

  after_first-IsAuthorised :
      (req : ApprovalRequest) (o : Option (Verdict × List Verdict))
      → state.approval_request ≡ some req
      → state.approval_granted ≡ none
      → await_verdict verdicts ≡ o
      → acts (after_first hmac w state req o) ≡ true
      → IsAuthorised hmac w state verdicts
  unfolding after_first
  after_first-IsAuthorised req none e g v h = cc
  after_first-IsAuthorised req (some (verdict, rest)) e g v h =
      let (yes_granted, confirmed) =
        after_verdict-Confirmed hmac w state req verdict.granted verdict.approval_token rest h in
      authorise req verdict.approval_token rest e (granted_by verdict rest g (v, yes_granted))
        confirmed

  approve-IsAuthorised :
      (req : ApprovalRequest) (granted : Option Bool)
      → state.approval_request ≡ some req
      → state.approval_granted ≡ granted
      → acts (approve hmac w state req granted verdicts) ≡ true
      → IsAuthorised hmac w state verdicts
  unfolding approve
  approve-IsAuthorised req none e g h =
      after_first-IsAuthorised req (await_verdict verdicts) e g refl h
  approve-IsAuthorised req (some granted) e g h =
      let (yes_granted, confirmed) =
        after_verdict-Confirmed hmac w state req granted state.approval_token verdicts h in
      authorise req state.approval_token verdicts e (preapproved (g ∙ ap some yes_granted))
        confirmed

  on_request-IsAuthorised :
      (o : Option ApprovalRequest)
      → state.approval_request ≡ o
      → acts (on_request hmac w state verdicts o) ≡ true
      → IsAuthorised hmac w state verdicts
  unfolding on_request
  on_request-IsAuthorised none e h = cc
  on_request-IsAuthorised (some req) e h = approve-IsAuthorised req state.approval_granted e refl h

-- The node reaches the outside (an MCP request or the files of the smoke run) only if a request
-- was made, the first verdict that was no deferral granted it (or the state did), a further verdict
-- granted it where two persons are needed (by the flag or by the namespace-delete classifier), the
-- target names a capability of errand-runner's allowlist, and the token of the last grant is signed
-- for this task, class, server and method.
pub node-IsAuthorised :
    (hmac : Text → Text → Text) (w : World) (state : FleetState) (verdicts : List Verdict)
    → acts (errand_runner_node hmac w state verdicts) ≡ true
    → IsAuthorised hmac w state verdicts
unfolding errand_runner_node
node-IsAuthorised hmac w state verdicts h =
    on_request-IsAuthorised hmac w state verdicts state.approval_request refl h
