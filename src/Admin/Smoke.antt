-- ===== src/Admin/Smoke.antt =====
-- `POST /admin/smoke/start-approval` of src/agents/api/admin.py, over the one-node graph of
-- src/agents/graphs/smoke.py. The timestamp of the run is an argument; the push of the request to the
-- phone is left out.
use langgraph_agents.Base.{
  ℕ, ◌≡◌, refl, Bool, true, false, Option, none, some, List, [], ◌∷◌, ◌++◌, ◌&&◌, ◌||◌, leb, ◌==◌,
  all, length, if◌then◌else◌, Text, text, text_eq, split_once, free_of,
}
use langgraph_agents.State.{
  ApprovalRequest, FleetState, fleet_state, Source, class_c, errand_runner,
}
use langgraph_agents.Mcp.{is_allowed, allowlists}
use langgraph_agents.ErrandRunner.{
  World, Verdict, Outcome, smoke, errand_runner_node, run_smoke, two_person,
}
use langgraph_agents.ErrandRunner.Accepts.{granted-smoke}
use langgraph_agents.ErrandRunner.Token.{mint, token_payload, IsPlain, verify-mint}
use langgraph_agents.Admin.Approvals.{grant_of, granted_with, IsAccepted-of}

abbrev pub is_label_char : ℕ → Bool
is_label_char c =
    ((leb b'a' c && leb c b'z') || (leb b'A' c && leb c b'Z'))
    || ((leb b'0' c && leb c b'9') || (c == b'_' || c == b'-'))

-- `Field(max_length=32, pattern=…)`
unfoldable pub is_valid_label : Text → Bool
is_valid_label label = (leb 1 (length label) && leb (length label) 32) && all is_label_char label

abbrev pub smoke_task_id : (label timestamp : Text) → Text
smoke_task_id label timestamp = text "smoke-" ++ (label ++ (text "-" ++ timestamp))

abbrev pub smoke_request : Text → ApprovalRequest
smoke_request task_id = record {
  action_class = class_c;
  target = text "smoke.test_write";
  payload_summary =
      text "SMOKE TEST: write+readback+delete a marker file under <vault_smoke_dir>/smoke-"
      ++ (task_id ++ text ".md. No external side effects.");
  undo_path = some (text "errand-runner deletes the file in the same step");
  proposed_by = errand_runner;
  requires_two_person = false;
}

abbrev pub smoke_content : Text
smoke_content =
    text
      "Synthetic smoke test of the approval flow. The HMAC verify of the resume token is the load-bearing assertion."

abbrev pub smoke_state : Text → FleetState
smoke_state task_id = record (fleet_state task_id Source.test smoke_content) {
  approval_request = some (smoke_request task_id);
}

-- `build_smoke_graph`: the run under the verdicts that its resumes bring.
unfoldable pub smoke_graph :
    (Text → Text → Text) → World → FleetState → List Verdict → Outcome × List (Text × Text)
smoke_graph hmac w state verdicts = errand_runner_node hmac w state verdicts

pub data SmokeStart : Type 0 where
  bad_label : SmokeStart  -- 422
  no_smoke_graph : SmokeStart  -- 503
  started : (task_id : Text) → SmokeStart

-- The response, and the state that the graph was started with.
unfoldable pub start_smoke_approval :
    (has_graph : Bool) → (label timestamp : Text) → SmokeStart × Option FleetState
start_smoke_approval has_graph label timestamp =
    if is_valid_label label
    then (if has_graph
        then (
          started (smoke_task_id label timestamp),
          some (smoke_state (smoke_task_id label timestamp)),
        )
        else (no_smoke_graph, none))
    else (bad_label, none)

smoke_split : split_once b'.' (text "smoke.test_write") ≡ some (text "smoke", text "test_write")
unfolding split_once
smoke_split = refl

smoke_allowed : is_allowed errand_runner (text "smoke") (text "test_write") ≡ true
unfolding is_allowed allowlists text_eq
smoke_allowed = refl

-- A smoke run that was started ends, under a verdict with a token minted for it, in the smoke test of
-- its own marker file, with no request to the gateway; its task id must not make the summary look
-- like the deletion of a namespace, and the token's parts and signature are free of the separators.
pub smoke-approved :
    (hmac : Text → Text → Text) (w : World) (label timestamp nonce : Text) (c : ℕ) (k : Text)
    (rest : List Verdict)
    → let t = smoke_task_id label timestamp in
      let grant = grant_of (smoke_state t) (smoke_request t) (text "smoke") (text "test_write") in
      is_valid_label label ≡ true
      → w.signing_key ≡ some (c ∷ k)
      → two_person (smoke_request t) ≡ false
      → IsPlain grant
      → free_of b':' (hmac (c ∷ k) (token_payload grant nonce)) ≡ true
      → (state : FleetState) × (start_smoke_approval true label timestamp ≡ (started t, some state))
        × (smoke_graph hmac w state (granted_with (mint hmac (c ∷ k) grant nonce) ∷ rest)
            ≡ (smoke (run_smoke w t true), []))
unfolding start_smoke_approval smoke_graph
smoke-approved hmac w label timestamp nonce c k rest valid key one plain hex =
    let t = smoke_task_id label timestamp in
    let token =
      mint hmac (c ∷ k)
        (grant_of (smoke_state t) (smoke_request t) (text "smoke") (text "test_write")) nonce in
    (
      smoke_state t,
      rw valid refl,
      granted-smoke hmac w (smoke_state t) (smoke_request t) (granted_with token) rest
          (text "test_write") refl refl one smoke_split smoke_allowed refl refl
          (IsAccepted-of hmac w (smoke_state t) (smoke_request t) (text "smoke") (text "test_write")
            (some token) token (c ∷ k) refl key
            (verify-mint hmac (c ∷ k)
              (grant_of (smoke_state t) (smoke_request t) (text "smoke") (text "test_write")) nonce
              plain hex)),
    )
