-- ===== src/Operators/Handoff.antt =====
-- An operator's finding on its way through the graph and the errand-runner.
use langgraph_agents.Base.{
  ◌≡◌, refl, ap, sym, ◌∙◌, inl, inr, Bool, true, false, Option, none, some, List, [], ◌∷◌, ◌&&◌,
  is_some, arith, Text, text, text_eq, strip, split_once, Bool-cases, if◌then◌else◌, or_else,
}
use langgraph_agents.State.{AgentId, ApprovalRequest, FleetState, errand_runner, reporter}
use langgraph_agents.Mcp.{is_allowed, allowlists, call}
use langgraph_agents.Fleet.{next, goto, specialist_map, route_after_specialist}
use langgraph_agents.ErrandRunner.{World, Verdict, errand_runner_node, two_person, attempted}
use langgraph_agents.ErrandRunner.Accepts.{IsExecutable, IsAccepted, granted-executes}
use langgraph_agents.ErrandRunner.Execution.{acts}
use langgraph_agents.ErrandRunner.Refusals.{k8s_write_refused, k8s_write_target}
use langgraph_agents.Operators.{
  Operator, network, smart_home, Finding, operator_id, operator_node, hands_off, needs_approval,
  compose_approval_request, with_request, composed, payload_summary, undo_path, described,
  first_line, write_target, ha_write_target,
}

abbrev pub asks : Finding → Bool
asks f = hands_off f.handoff_target && needs_approval f.action_class

-- What the node returned, where it asked for an approval.
record IsAsked (op : Operator) (f : Finding) (draft : Text) (s after : FleetState) : Type 0 where
  req : ApprovalRequest
  composed_as : compose_approval_request op f ≡ some req
  state_is : after ≡ record s {
    output = some draft;
    approval_request = some req;
    target_agent = some errand_runner;
  }

with_request-IsAsked :
    (op : Operator) (f : Finding) (draft : Text) (s after : FleetState) (o : Option ApprovalRequest)
    → compose_approval_request op f ≡ o
    → with_request draft s o ≡ some after
    → IsAsked op f draft s after
with_request-IsAsked op f draft s after none c e = ground arith
with_request-IsAsked op f draft s after (some req) c e = record {
  req = req;
  composed_as = c;
  state_is = cc e;
}

operator_node-IsAsked :
    (op : Operator) (f : Finding) (draft : Text) (s after : FleetState)
    → asks f ≡ true
    → operator_node op f draft s ≡ some after
    → IsAsked op f draft s after
unfolding operator_node
operator_node-IsAsked op f draft s after a e =
    with_request-IsAsked op f draft s after (compose_approval_request op f) refl
      (sym (rw a refl) ∙ e)

operator_node-unasked :
    (op : Operator) (f : Finding) (draft : Text) (s : FleetState)
    → asks f ≡ false
    → operator_node op f draft s ≡ some (record s { output = some draft })
unfolding operator_node
operator_node-unasked op f draft s n = rw n refl

route-asked :
    (s : FleetState) (req : ApprovalRequest)
    → s.rejection ≡ none
    → s.approval_request ≡ some req
    → s.target_agent ≡ some errand_runner
    → route_after_specialist s ≡ some errand_runner
unfolding route_after_specialist
route-asked s req r a t = rw (r, a, t) refl

route-unasked :
    (s : FleetState)
    → s.rejection ≡ none
    → s.approval_request ≡ none
    → route_after_specialist s ≡ none
unfolding route_after_specialist
route-unasked s r a = rw (r, a) refl

next-route :
    (op : Operator) (s : FleetState) (o : Option AgentId)
    → route_after_specialist s ≡ o
    → next (operator_id op) s ≡ specialist_map o
unfolding next
next-route network s o e = ap specialist_map e
next-route _ s o e = ap specialist_map e

-- An operator's finding goes to the errand-runner exactly if it names it and its class is C or D,
-- and to the reporter otherwise, where the task was not rejected and had no request before.
pub operator_node-routed :
    (op : Operator) (f : Finding) (draft : Text) (s after : FleetState)
    → s.rejection ≡ none
    → s.approval_request ≡ none
    → operator_node op f draft s ≡ some after
    → next (operator_id op) after ≡ goto (if asks f then errand_runner else reporter)
unfolding operator_node
operator_node-routed op f draft s after r n e = elim (Bool-cases (asks f)) [
  | inl yes_asks ↦
      let a = operator_node-IsAsked op f draft s after yes_asks e in
      next-route op after (some errand_runner) (
        route-asked after a.req (ap (λ (t : FleetState). t.rejection) a.state_is ∙ r)
          (ap (λ (t : FleetState). t.approval_request) a.state_is)
          (ap (λ (t : FleetState). t.target_agent) a.state_is))
      ∙ rw yes_asks refl
  | inr no_asks ↦
      let same : record s { output = some draft } ≡ after =
        cc (sym (operator_node-unasked op f draft s no_asks) ∙ e) in
      next-route op after none (
        route-unasked after (ap (λ (t : FleetState). t.rejection) (sym same) ∙ r)
          (ap (λ (t : FleetState). t.approval_request) (sym same) ∙ n))
      ∙ rw no_asks refl
]

composed-fields :
    (op : Operator) (f : Finding) (req : ApprovalRequest) (o : Option Text)
    → composed op f o ≡ some req
    → (req.target ≡ write_target op) × (req.undo_path ≡ undo_path op f.rollback)
composed-fields op f req none e = ground arith
composed-fields op f req (some summary) e = (cc e, cc e)

compose-fields :
    (op : Operator) (f : Finding) (req : ApprovalRequest)
    → compose_approval_request op f ≡ some req
    → (req.target ≡ write_target op) × (req.undo_path ≡ undo_path op f.rollback)
unfolding compose_approval_request
compose-fields op f req e = composed-fields op f req (payload_summary f.change) e

-- Every operator but the smart-home one proposes the target that the errand-runner may not call: a
-- task that it hands off makes the errand-runner act under no verdicts.
pub k8s_operator-refused :
    (hmac : Text → Text → Text) (w : World) (op : Operator) (f : Finding) (draft : Text)
    (s after : FleetState) (verdicts : List Verdict)
    → write_target op ≡ k8s_write_target
    → asks f ≡ true
    → operator_node op f draft s ≡ some after
    → acts (errand_runner_node hmac w after verdicts) ≡ false
k8s_operator-refused hmac w op f draft s after verdicts k a e =
    let x = operator_node-IsAsked op f draft s after a e in
    k8s_write_refused hmac w after verdicts x.req
      (ap (λ (t : FleetState). t.approval_request) x.state_is)
      ((compose-fields op f x.req x.composed_as).0 ∙ k)

described-present :
    (target t : Text) → text_eq t [] ≡ false → is_some (described target (first_line 160 t)) ≡ true
unfolding first_line text_eq
described-present target [] h = ground arith
described-present target (c ∷ t) h = refl

undo_path-present :
    (op : Operator) (rollback : Text)
    → text_eq (strip rollback) [] ≡ false
    → is_some (undo_path op rollback) ≡ true
unfolding undo_path
undo_path-present op rollback h = described-present (write_target op) (strip rollback) h

ha_split : split_once b'.' ha_write_target ≡ some (text "ha-mcp", text "call_service")
unfolding split_once
ha_split = refl

ha_allowed : is_allowed errand_runner (text "ha-mcp") (text "call_service") ≡ true
unfolding is_allowed allowlists text_eq
ha_allowed = refl

ha_real : text_eq (text "ha-mcp") (text "smoke") ≡ false
unfolding text_eq
ha_real = refl

smart_home-IsExecutable :
    (f : Finding) (draft : Text) (s after : FleetState) (req : ApprovalRequest)
    → asks f ≡ true
    → operator_node smart_home f draft s ≡ some after
    → s.approval_granted ≡ none
    → text_eq (strip f.rollback) [] ≡ false
    → after.approval_request ≡ some req
    → two_person req ≡ false
    → IsExecutable after req (text "ha-mcp") (text "call_service")
smart_home-IsExecutable f draft s after req a e g b r one =
    let x = operator_node-IsAsked smart_home f draft s after a e in
    let same : x.req ≡ req =
      cc (sym (ap (λ (t : FleetState). t.approval_request) x.state_is) ∙ r) in
    let fields =
      compose-fields smart_home f req (x.composed_as ∙ ap (λ (q : ApprovalRequest). some q) same) in
    record {
      requested = r;
      undecided = ap (λ (t : FleetState). t.approval_granted) x.state_is ∙ g;
      one_person = one;
      target = ap (split_once b'.') fields.0 ∙ ha_split;
      allowed = ha_allowed;
      real = ha_real;
      undoable = inl (
          ap (λ (o : Option Text). is_some o) fields.1 ∙ undo_path-present smart_home f.rollback b);
    }

-- A task that the smart-home operator hands off, with a rollback that is not blank and a request that
-- needs no second person, makes the errand-runner call the Home Assistant service once, and nothing
-- else, on a first verdict that grants it with an accepted token.
pub smart_home-executes :
    (hmac : Text → Text → Text) (w : World) (f : Finding) (draft : Text) (s after : FleetState)
    (req : ApprovalRequest) (v : Verdict) (rest : List Verdict)
    → asks f ≡ true
    → operator_node smart_home f draft s ≡ some after
    → s.approval_granted ≡ none
    → text_eq (strip f.rollback) [] ≡ false
    → after.approval_request ≡ some req
    → two_person req ≡ false
    → v.deferred ≡ false
    → v.granted ≡ true
    → IsAccepted hmac w after req (text "ha-mcp") (text "call_service") v.approval_token
    → errand_runner_node hmac w after (v ∷ rest) ≡ (
      attempted
          (text "ha-mcp")
          (text "call_service")
          (call errand_runner (text "ha-mcp") (text "call_service") w.answer).0,
      (text "ha-mcp", text "call_service") ∷ [],
    )
smart_home-executes hmac w f draft s after req v rest a e g b r one now granted accepted =
    granted-executes hmac w after req v rest (text "ha-mcp") (text "call_service")
      (smart_home-IsExecutable f draft s after req a e g b r one) now granted accepted

with_request-quiet :
    (draft : Text) (s : FleetState) (o : Option ApprovalRequest)
    → s.rejection ≡ none
    → (or_else (with_request draft s o) s).rejection ≡ none
with_request-quiet draft s none h = h
with_request-quiet draft s (some req) h = h

request-quiet :
    (op : Operator) (f : Finding) (draft : Text) (s : FleetState)
    → asks f ≡ true
    → s.rejection ≡ none
    → (or_else (operator_node op f draft s) s).rejection ≡ none
unfolding operator_node
request-quiet op f draft s a h = rw a (with_request-quiet draft s (compose_approval_request op f) h)

-- No operator rejects a task: a state without a rejection has none after its node either.
pub operator_node-quiet :
    (op : Operator) (f : Finding) (draft : Text) (s : FleetState)
    → s.rejection ≡ none
    → (or_else (operator_node op f draft s) s).rejection ≡ none
operator_node-quiet op f draft s h = elim (Bool-cases (asks f)) [
  | inl yes_asks ↦ request-quiet op f draft s yes_asks h
  | inr no_asks ↦ rw (operator_node-unasked op f draft s no_asks) h
]
