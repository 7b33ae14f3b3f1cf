-- ===== src/Inbox/Examples.antt =====
-- The inbox on a concrete request, with a key-value store in place of Dragonfly.
use langgraph_agents.Base.{
  ℕ, ◌+◌, ◌≡◌, refl, sym, ap, ◌∙◌, Bool, true, false, Option, none, some, List, [], ◌∷◌, ltb,
  if◌then◌else◌, is_some, Text, text, strip, lstrip, rstrip, text_eq, text_eq_refl, get, put,
  Text_eq, get-put, arith,
}
use langgraph_agents.State.{Intent, action, question, Source, DataTier, renee}
use langgraph_agents.Queue.Envelope.{Envelope}
use langgraph_agents.Idempotency.{Redis, full_key, client_or_none}
use langgraph_agents.Inbox.{InboxState, duplicate, gate, validate_envelope, post_inbox}
use langgraph_agents.Inbox.Ingress.{Effect, post_inbox-Effect}
use langgraph_agents.Inbox.Retry.{KeepsKeys, post_inbox-duplicate}

-- The values with the time at which they expire.
abbrev Server : Type 0
Server = List (Text × (Text × ℕ))

abbrev alive : ℕ → Option (Text × ℕ) → Option Text
alive now none = none
alive now (some (v, t)) = if ltb now t then some v else none

abbrev store_unless : Bool → ℕ → Text → Text → Server → Option Bool × Server
store_unless true expiry key value s = (some false, s)
store_unless false expiry key value s = (some true, put s key (value, expiry))

abbrev server : Redis Server
server = record {
  ping = λ _. true;
  set_nx =
      λ now key value ex s. store_unless (is_some (alive now (get s key))) (now + ex) key value s;
  get_value = λ now key s. some (alive now (get s key));
}

kept_by :
    (b : Bool) (now later : ℕ) (key v w : Text) (ex ey : ℕ) (s s' : Server)
    → store_unless b (now + ex) key v s ≡ (some true, s')
    → ltb later (now + ex) ≡ true
    → (server.set_nx later key w ey s' ≡ (some false, s'))
      × (server.get_value later key s' ≡ some (some v))
kept_by true now later key v w ex ey s s' h b = ground arith
kept_by false now later key v w ex ey s s' h b =
    let same : put s key (v, now + ex) ≡ s' = cc h in
    let found : get s' key ≡ some (v, now + ex) =
      ap (λ (d : Server). get d key) (sym same)
      ∙ get-put s key key (v, now + ex)
      ∙ rw (text_eq_refl key) refl in
    rw (found, b) (refl, refl)

server-KeepsKeys : KeepsKeys server
server-KeepsKeys = record {
  kept = λ now later key v w ex ey s s' h _ b.
      kept_by (is_some (alive now (get s key))) now later key v w ex ey s s' h b;
}

abbrev order : Envelope
order = record {
  client_task_id = text "w-7";
  source = Source.voice;
  content = text "turn the lights off";
  zulip_user_id = none;
  trace_id = none;
  requester = some renee;
  intent = some action;
  destructive = none;
  idempotency_key = some (text "k7");
  ttl_seconds = some 60;
  max_attempts = none;
  data_tier = DataTier.internal;
  target_agent = none;
  conversation_id = none;
}

abbrev started : InboxState Server
started = record {
  task_queue = some (record { queue = []; dlq = [] });
  dedup_store = record { server = []; connected = false; default_ttl = 3600 };
}

abbrev allowed : List Intent
allowed = action ∷ question ∷ []

order-passes : gate allowed order ≡ none
unfolding gate validate_envelope strip lstrip rstrip text_eq
order-passes = refl

started-connects : (client_or_none server started.dedup_store).connected ≡ true
unfolding client_or_none
started-connects = refl

first-stored :
    server.set_nx 100 (full_key (text "k7")) (text "w-7") 3600 []
    ≡ (some true, put [] (full_key (text "k7")) (text "w-7", 3700))
unfolding get
first-stored = refl

post_inbox-duplicate_example :
    let first = post_inbox server allowed 100 (text "01A") (text "tr1") order started in
    post_inbox server allowed 160 (text "01B") (text "tr2") order first.1
    ≡ (duplicate (text "w-7"), first.1)
post_inbox-duplicate_example =
    post_inbox-duplicate server allowed 100 160 (text "01A") (text "tr1") (text "01B") (text "tr2")
      order (text "k7") (record { queue = []; dlq = [] }) started
      (put [] (full_key (text "k7")) (text "w-7", 3700)) server-KeepsKeys order-passes refl refl
      started-connects first-stored refl refl

post_inbox-Effect_example :
    let p = post_inbox server allowed 100 (text "01A") (text "tr1") order started in
    Effect allowed 100 (text "01A") (text "tr1") order started.task_queue p.1.task_queue p.0
post_inbox-Effect_example =
    post_inbox-Effect server allowed 100 (text "01A") (text "tr1") order started
