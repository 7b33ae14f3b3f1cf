-- ===== src/ErrandRunner/Accepts.antt =====
-- What the errand-runner node does with the first verdict: the branch that executes, and the two
-- that refuse.
use langgraph_agents.Base.{
  ◌≡◌, refl, ◌⊎◌, ap, ◌∙◌, Bool, true, false, Option, none, some, List, [], ◌∷◌, arith, Text, text,
  text_eq, text_eq_refl, text_or, is_some, split_once,
}
use langgraph_agents.State.{ApprovalRequest, FleetState, errand_runner}
use langgraph_agents.Mcp.{is_allowed, call}
use langgraph_agents.ErrandRunner.Token.{verify_approval_token}
use langgraph_agents.ErrandRunner.{
  World, Verdict, smoke, run_smoke, attempted, not_granted, await_verdict, is_class_c, execute,
  authorised, dispatch, confirm, two_person, after_verdict, after_first, on_request, approve,
  errand_runner_node,
}

-- A request that waits for its first verdict: one person is enough, the target is allowed and is no
-- smoke run, and a class C action has its undo path.
pub record IsExecutable (state : FleetState) (req : ApprovalRequest) (server method : Text)
    : Type 0 where
  pub requested : state.approval_request ≡ some req
  pub undecided : state.approval_granted ≡ none
  pub one_person : two_person req ≡ false
  pub target : split_once b'.' req.target ≡ some (server, method)
  pub allowed : is_allowed errand_runner server method ≡ true
  pub real : text_eq server (text "smoke") ≡ false
  pub undoable : (is_some req.undo_path ≡ true) ⊎ (is_class_c req.action_class ≡ false)

-- The token of the verdict is accepted for the action.
abbrev pub IsAccepted :
    (Text → Text → Text) → World → FleetState → ApprovalRequest → Text → Text → Option Text → Type 0
IsAccepted hmac w state req server method token =
    verify_approval_token hmac (text_or token [])
      (record {
        task_id = state.task_id;
        action_class = req.action_class;
        server = server;
        method = method;
      })
      (text_or w.signing_key [])
    ≡ true

module _ (hmac : Text → Text → Text) (w : World) (state : FleetState) (req : ApprovalRequest) where
  authorised-executes :
      (server method : Text)
      → IsExecutable state req server method
      → authorised hmac w state req server method ≡ (
        attempted server method (call errand_runner server method w.answer).0,
        (server, method) ∷ [],
      )
  unfolding authorised execute call
  authorised-executes server method x = ground arith

  confirm-one :
      (token : Option Text) (rest : List Verdict)
      → two_person req ≡ false
      → confirm hmac w state req token rest
        ≡ dispatch hmac w state req token (split_once b'.' req.target)
  unfolding confirm
  confirm-one token rest one = ground arith

  dispatch-executes :
      (token : Option Text) (server method : Text)
      → IsExecutable state req server method
      → IsAccepted hmac w state req server method token
      → dispatch hmac w state req token (some (server, method))
        ≡ authorised hmac w state req server method
  unfolding dispatch
  dispatch-executes token server method x a = ground arith

await-now :
    (v : Verdict) (rest : List Verdict)
    → v.deferred ≡ false
    → await_verdict (v ∷ rest) ≡ some (v, rest)
unfolding await_verdict
await-now v rest n = ground arith

module _ (hmac : Text → Text → Text) (w : World) (state : FleetState) (req : ApprovalRequest)
    (v : Verdict) (rest : List Verdict) where
  -- The first verdict is read, and decides.
  undecided-after :
      state.approval_request ≡ some req
      → state.approval_granted ≡ none
      → v.deferred ≡ false
      → errand_runner_node hmac w state (v ∷ rest)
        ≡ after_verdict hmac w state req v.granted v.approval_token rest
  unfolding errand_runner_node on_request approve after_first
  undecided-after r u n =
      ap (on_request hmac w state (v ∷ rest)) r
      ∙ ap (λ (g : Option Bool). approve hmac w state req g (v ∷ rest)) u
      ∙ ap (after_first hmac w state req) (await-now v rest n)

  -- A first verdict that grants an executable action with an accepted token executes it: the one
  -- request that leaves is the action's.
  pub granted-executes :
      (server method : Text)
      → IsExecutable state req server method
      → v.deferred ≡ false
      → v.granted ≡ true
      → IsAccepted hmac w state req server method v.approval_token
      → errand_runner_node hmac w state (v ∷ rest) ≡ (
        attempted server method (call errand_runner server method w.answer).0,
        (server, method) ∷ [],
      )
  unfolding after_verdict
  granted-executes server method x n g a =
      undecided-after x.requested x.undecided n
      ∙ ap (λ (b : Bool). after_verdict hmac w state req b v.approval_token rest) g
      ∙ confirm-one hmac w state req v.approval_token rest x.one_person
      ∙ ap (dispatch hmac w state req v.approval_token) x.target
      ∙ dispatch-executes hmac w state req v.approval_token server method x a
      ∙ authorised-executes hmac w state req server method x

  -- A first verdict that grants a smoke request runs the smoke test and sends no request.
  pub granted-smoke :
      (method : Text)
      → state.approval_request ≡ some req
      → state.approval_granted ≡ none
      → two_person req ≡ false
      → split_once b'.' req.target ≡ some (text "smoke", method)
      → is_allowed errand_runner (text "smoke") method ≡ true
      → v.deferred ≡ false
      → v.granted ≡ true
      → IsAccepted hmac w state req (text "smoke") method v.approval_token
      → errand_runner_node hmac w state (v ∷ rest) ≡ (smoke (run_smoke w state.task_id true), [])
  unfolding after_verdict dispatch authorised
  granted-smoke method r u one t allowed n g a =
      undecided-after r u n
      ∙ ap (λ (b : Bool). after_verdict hmac w state req b v.approval_token rest) g
      ∙ confirm-one hmac w state req v.approval_token rest one
      ∙ ap (dispatch hmac w state req v.approval_token) t
      ∙ rw (allowed, a, text_eq_refl (text "smoke")) refl

  pub denied-refuses :
      state.approval_request ≡ some req
      → state.approval_granted ≡ none
      → v.deferred ≡ false
      → v.granted ≡ false
      → errand_runner_node hmac w state (v ∷ rest) ≡ (not_granted, [])
  unfolding after_verdict
  denied-refuses r u n g =
      undecided-after r u n
      ∙ ap (λ (b : Bool). after_verdict hmac w state req b v.approval_token rest) g

pub refused-stays :
    (hmac : Text → Text → Text) (w : World) (state : FleetState) (verdicts : List Verdict)
    (req : ApprovalRequest)
    → state.approval_request ≡ some req
    → state.approval_granted ≡ some false
    → errand_runner_node hmac w state verdicts ≡ (not_granted, [])
unfolding errand_runner_node on_request approve after_verdict
refused-stays hmac w state verdicts req r g =
    ap (on_request hmac w state verdicts) r
    ∙ ap (λ (b : Option Bool). approve hmac w state req b verdicts) g
