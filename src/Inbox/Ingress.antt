-- ===== src/Inbox/Ingress.antt =====
-- What a request leaves on the queue.
use langgraph_agents.Base.{
  ℕ, ◌≡◌, refl, ap, sym, ◌∙◌, Bool, true, false, Option, none, some, List, [], ◌∷◌, Text, text_or,
  arith,
}
use langgraph_agents.State.{Intent, Requester, renee}
use langgraph_agents.Queue.Envelope.{Envelope}
use langgraph_agents.Queue.Store.{Store, enqueue}
use langgraph_agents.Idempotency.{Redis, check_and_set}
use langgraph_agents.Inbox.{
  InboxResponse, InboxState, accepted, gate, ensure_trace_id, on_enqueue, on_prior, on_key, on_gate,
  on_queue, post_inbox, gate_of, check_requester, check_intent, RejectReason, validate_envelope,
}

-- Exactly the row of this request was added, after every check had passed.
pub record IsEnqueued (allowed : List Intent) (now : ℕ) (task_id minted : Text) (req : Envelope)
    (before after : Option Store) (t conversation_id : Text) : Type 0 where
  pub passed : gate allowed req ≡ none
  pub queue : Store
  pub stored_queue : Store
  pub had : before ≡ some queue
  pub added : enqueue now task_id (ensure_trace_id minted req) queue ≡ some stored_queue
  pub has : after ≡ some stored_queue
  pub same_id : t ≡ task_id
  pub thread : conversation_id ≡ text_or req.conversation_id task_id

-- The effect that a response stands for.
abbrev pub Effect :
    List Intent → ℕ → Text → Text → Envelope → Option Store → Option Store → InboxResponse → Type 0
Effect allowed now task_id minted req before after (accepted t c) =
    IsEnqueued allowed now task_id minted req before after t c
Effect allowed now task_id minted req before after _ = after ≡ before

-- Not a refusal that stands for an effect.
abbrev refuses : Option InboxResponse → Bool
refuses (some (accepted t c)) = false
refuses _ = true

check_intent-refuses :
    (allowed : List Intent) (o : Option Intent) → refuses (check_intent allowed o) ≡ true
check_intent-refuses allowed none = refl
check_intent-refuses allowed (some i) = ground arith

check_requester-refuses :
    (allowed : List Intent) (req : Envelope) (o : Option Requester)
    → refuses (check_requester allowed req o) ≡ true
check_requester-refuses allowed req (some renee) = check_intent-refuses allowed req.intent
check_requester-refuses allowed req _ = refl

gate_of-refuses :
    (allowed : List Intent) (req : Envelope) (o : Option RejectReason)
    → refuses (gate_of allowed req o) ≡ true
gate_of-refuses allowed req (some reason) = refl
gate_of-refuses allowed req none = check_requester-refuses allowed req req.requester

gate-refuses : (allowed : List Intent) (req : Envelope) → refuses (gate allowed req) ≡ true
unfolding gate
gate-refuses allowed req = gate_of-refuses allowed req (validate_envelope req)

refused-Effect :
    (allowed : List Intent) (now : ℕ) (task_id minted : Text) (req : Envelope)
    (queue : Option Store) (x : InboxResponse)
    → refuses (some x) ≡ true
    → Effect allowed now task_id minted req queue queue x
refused-Effect allowed now task_id minted req queue (accepted t c) h = ground arith
refused-Effect allowed now task_id minted req queue _ h = refl

module _ {S : Type 0} (r : Redis S) (allowed : List Intent) (now : ℕ) (task_id minted : Text)
    (req : Envelope) where
  on_enqueue-Effect :
      (q : Store) (st : InboxState S) (o : Option Store)
      → gate allowed req ≡ none
      → st.task_queue ≡ some q
      → enqueue now task_id (ensure_trace_id minted req) q ≡ o
      → let p = on_enqueue r allowed task_id req st o in
        Effect allowed now task_id minted req st.task_queue p.1.task_queue p.0
  on_enqueue-Effect q st none g h e = refl
  on_enqueue-Effect q st (some next) g h e = record {
    passed = g;
    queue = q;
    stored_queue = next;
    had = h;
    added = e;
    has = refl;
    same_id = refl;
    thread = refl;
  }

  on_prior-Effect :
      (q : Store) (st : InboxState S) (prior : Option Text)
      → gate allowed req ≡ none
      → st.task_queue ≡ some q
      → let p = on_prior r allowed now task_id minted req q prior st in
        Effect allowed now task_id minted req st.task_queue p.1.task_queue p.0
  on_prior-Effect q st none g h =
      on_enqueue-Effect q st (enqueue now task_id (ensure_trace_id minted req) q) g h refl
  on_prior-Effect q st (some []) g h =
      on_enqueue-Effect q st (enqueue now task_id (ensure_trace_id minted req) q) g h refl
  on_prior-Effect q st (some (c ∷ prior)) g h = refl

  on_key-Effect :
      (q : Store) (st : InboxState S) (key : Option Text)
      → gate allowed req ≡ none
      → st.task_queue ≡ some q
      → let p = on_key r allowed now task_id minted req q st key in
        Effect allowed now task_id minted req st.task_queue p.1.task_queue p.0
  on_key-Effect q st none g h =
      on_enqueue-Effect q st (enqueue now task_id (ensure_trace_id minted req) q) g h refl
  on_key-Effect q st (some key) g h =
      let p = check_and_set r now key req.client_task_id none st.dedup_store in
      on_prior-Effect q (record st { dedup_store = p.1 }) p.0 g h

  on_gate-Effect :
      (q : Store) (st : InboxState S) (o : Option InboxResponse)
      → gate allowed req ≡ o
      → st.task_queue ≡ some q
      → let p = on_gate r allowed now task_id minted req q st o in
        Effect allowed now task_id minted req st.task_queue p.1.task_queue p.0
  on_gate-Effect q st none g h = on_key-Effect q st req.idempotency_key g h
  on_gate-Effect q st (some refusal) g h =
      refused-Effect allowed now task_id minted req st.task_queue refusal
        (ap refuses (sym g) ∙ gate-refuses allowed req)

  on_queue-Effect :
      (st : InboxState S) (o : Option Store)
      → st.task_queue ≡ o
      → let p = on_queue r allowed now task_id minted req st o in
        Effect allowed now task_id minted req st.task_queue p.1.task_queue p.0
  on_queue-Effect st none h = refl
  on_queue-Effect st (some q) h = on_gate-Effect q st (gate allowed req) refl h

  -- An `accepted` answer means that every check had passed and that exactly the row of the request
  -- was enqueued, under the task id that is returned; after every other answer the queue is as it was.
  pub post_inbox-Effect :
      (st : InboxState S)
      → let p = post_inbox r allowed now task_id minted req st in
        Effect allowed now task_id minted req st.task_queue p.1.task_queue p.0
  unfolding post_inbox
  post_inbox-Effect st = on_queue-Effect st st.task_queue refl
