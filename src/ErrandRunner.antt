-- ===== src/ErrandRunner.antt =====
-- src/agents/nodes/errand_runner.py: the node that executes approved actions.
-- `interrupt()` returns the resume values of the thread in their order; when they run out, the
-- graph is paused. HMAC-SHA256 is a parameter, the gateway's answer and the file system of the
-- smoke run are arguments. The rendered sentence of each output and the audit hash in it are the
-- outcome's constructor and its arguments.
pub mod Token
pub mod Execution
pub mod Refusals
pub mod Accepts
pub mod Examples
use langgraph_agents.Base.{
  ℕ, Bool, true, false, Option, none, some, List, [], ◌∷◌, ◌++◌, ◌&&◌, ◌||◌, not, if◌then◌else◌,
  is_some, any, Text, text, text_eq, text_or, lower, contains_text, split_once, split, or_else,
}
use langgraph_agents.State.{ActionClass, class_c, ApprovalRequest, FleetState, errand_runner}
use langgraph_agents.Mcp.{is_allowed, Answer, CallResult, call}
use langgraph_agents.ErrandRunner.Token.{Grant, verify_approval_token}

-- The value that `/approval` resumes with.
pub record Verdict : Type 0 where
  pub granted : Bool
  pub deferred : Bool
  pub approval_token : Option Text

-- The answers of the file system to the smoke run: whether the write and the unlink succeed, what
-- the read returns, and whether the path exists afterwards.
pub record SmokeFs : Type 0 where
  pub write_ok : Bool
  pub read_text : Option Text
  pub unlink_ok : Bool
  pub exists_after : Bool

pub record SmokeResult : Type 0 where
  pub file_name : Text
  pub expected_content : Text
  pub actual_content : Option Text
  pub write_ok : Bool
  pub readback_ok : Bool
  pub delete_ok : Bool
  pub file_gone_after_delete : Bool
  pub hmac_verify_ok : Bool

pub data Stage : Type 0 where
  first_approval second_confirmation : Stage

pub data Outcome : Type 0 where
  paused : Stage → Outcome
  no_request : Outcome
  not_granted : Outcome
  second_denied : Outcome
  malformed_target : Outcome
  not_in_allowlist : Outcome
  token_invalid : Outcome
  smoke : SmokeResult → Outcome
  undo_path_missing : Outcome
  attempted : (server method : Text) → CallResult → Outcome

pub record World : Type 0 where
  pub signing_key : Option Text
  pub answer : Answer
  pub fs : SmokeFs

abbrev delete_signals : List Text
delete_signals = text "delete" ∷ text "remove" ∷ text "destroy" ∷ text "drop" ∷ []

abbrev namespace_signals : List Text
namespace_signals = text "namespace" ∷ text "namespaces" ∷ []

unfoldable pub looks_like_ns_delete : Text → Text → Bool
looks_like_ns_delete target summary =
    let haystack = lower (target ++ text " " ++ summary) in
    any (λ sig. contains_text sig haystack) delete_signals
    && any (λ sig. contains_text sig haystack) namespace_signals

-- The loop `while True: verdict = interrupt(…); if not verdict.get("deferred"): break`.
unfoldable pub await_verdict : List Verdict → Option (Verdict × List Verdict)
await_verdict [] = none
await_verdict (v ∷ vs) = let rest = await_verdict vs in if v.deferred then rest else some (v, vs)

-- `Path(task_id).name`: the last component that is neither empty nor ".".
last_component : List Text → Text
last_component [] = []
last_component (p ∷ ps) =
    let later = last_component ps in
    if text_eq later [] then (if text_eq p (text ".") then [] else p) else later

unfoldable pub path_name : Text → Text
unfolding last_component
path_name s = last_component (split b'/' s)

unfoldable pub run_smoke : World → Text → Bool → SmokeResult
run_smoke w task_id hmac_ok =
    let safe_id = path_name task_id in
    let expected =
      text "smoke-test marker\ntask_id: " ++ (safe_id ++ text "\nwritten_by: errand-runner\n") in
    let actual = if w.fs.write_ok then w.fs.read_text else none in
    record {
      file_name = text "smoke-" ++ (safe_id ++ text ".md");
      expected_content = expected;
      actual_content = actual;
      write_ok = w.fs.write_ok;
      readback_ok = elim actual [ none ↦ false | some t ↦ text_eq t expected ];
      delete_ok = w.fs.unlink_ok;
      file_gone_after_delete = not w.fs.exists_after;
      hmac_verify_ok = hmac_ok;
    }

abbrev pub is_class_c : ActionClass → Bool
is_class_c class_c = true
is_class_c _ = false

abbrev pub two_person : ApprovalRequest → Bool
two_person req = req.requires_two_person || looks_like_ns_delete req.target req.payload_summary

-- `confirm.get("approval_token") or approval_token`
abbrev pub latest : Option Text → Option Text → Option Text
latest none old = old
latest (some []) old = old
latest (some (c ∷ t)) old = some (c ∷ t)

abbrev Requests : Type 0
Requests = List (Text × Text)

module _ (hmac : Text → Text → Text) (w : World) (state : FleetState) (req : ApprovalRequest) where
  -- The MCP call, at the end of the node.
  execute : Text → Text → Outcome × Requests
  execute server method =
      let (result, sent) = call errand_runner server method w.answer in
      (attempted server method result, sent)

  -- From the signed token on: the smoke branch, the pre-flight, the call.
  authorised : Text → Text → Outcome × Requests
  unfolding execute
  authorised server method =
      if text_eq server (text "smoke")
      then (smoke (run_smoke w state.task_id true), [])
      else if not (is_some req.undo_path) && is_class_c req.action_class
      then (undo_path_missing, [])
      else execute server method

  -- From the target on: its shape, the allowlist, and the token.
  dispatch : Option Text → Option (Text × Text) → Outcome × Requests
  dispatch token none = (malformed_target, [])
  dispatch token (some (server, method)) =
      if not (is_allowed errand_runner server method)
      then (not_in_allowlist, [])
      else if not (
          verify_approval_token hmac (text_or token [])
            (record {
              task_id = state.task_id;
              action_class = req.action_class;
              server = server;
              method = method;
            })
            (text_or w.signing_key []))
      then (token_invalid, [])
      else authorised server method

  -- The verdict of the second gate.
  after_second : Option Text → Option (Verdict × List Verdict) → Outcome × Requests
  after_second token none = (paused second_confirmation, [])
  after_second token (some (v, rest)) =
      if not v.granted
      then (second_denied, [])
      else dispatch (latest v.approval_token token) (split_once b'.' req.target)

  confirm : Option Text → List Verdict → Outcome × Requests
  confirm token verdicts =
      if two_person req
      then after_second token (await_verdict verdicts)
      else dispatch token (split_once b'.' req.target)

  after_verdict : Bool → Option Text → List Verdict → Outcome × Requests
  after_verdict granted token verdicts =
      if not granted then (not_granted, []) else confirm token verdicts

  -- The verdict of the first gate.
  after_first : Option (Verdict × List Verdict) → Outcome × Requests
  after_first none = (paused first_approval, [])
  after_first (some (v, rest)) = after_verdict v.granted v.approval_token rest

  approve : Option Bool → List Verdict → Outcome × Requests
  approve (some granted) verdicts = after_verdict granted state.approval_token verdicts
  approve none verdicts = after_first (await_verdict verdicts)

on_request :
    (Text → Text → Text)
    → World
    → FleetState
    → List Verdict
    → Option ApprovalRequest
    → Outcome × Requests
on_request hmac w state verdicts none = (no_request, [])
on_request hmac w state verdicts (some req) =
    approve hmac w state req state.approval_granted verdicts

-- The node's outcome, and the MCP requests that leave the pod.
pub errand_runner_node :
    (Text → Text → Text) → World → FleetState → List Verdict → Outcome × List (Text × Text)
errand_runner_node hmac w state verdicts = on_request hmac w state verdicts state.approval_request
