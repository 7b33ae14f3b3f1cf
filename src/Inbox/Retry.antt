-- ===== src/Inbox/Retry.antt =====
-- A request that is sent again within the window of its idempotency key.
use mathlib.Core.Path.{subst}
use langgraph_agents.Base.{
  ℕ, ◌+◌, ◌≡◌, refl, sym, ap, ◌∙◌, true, false, Option, none, some, List, [], ◌∷◌, ltb, leb, inl,
  inr, Bool-cases, Text, arith, strip, lstrip, rstrip, text_eq,
}
use langgraph_agents.State.{Intent}
use langgraph_agents.Queue.Envelope.{Envelope}
use langgraph_agents.Queue.Store.{Store, enqueue}
use langgraph_agents.Idempotency.{Redis, DedupStore, full_key, client_or_none, check_and_set}
use langgraph_agents.Inbox.{
  InboxState, InboxResponse, duplicate, gate, validate_envelope, is_blank, on_prior, on_key,
  on_gate, on_queue, on_enqueue, ensure_trace_id, post_inbox,
}

-- `SET NX EX` and `GET` within the life of a key that was stored, on a server that answers.
pub record KeepsKeys {S : Type 0} (r : Redis S) : Type 0 where
  pub kept :
      (now later : ℕ) (key v w : Text) (ex ey : ℕ) (s s' : S)
      → r.set_nx now key v ex s ≡ (some true, s')
      → leb now later ≡ true
      → ltb later (now + ex) ≡ true
      → (r.set_nx later key w ey s' ≡ (some false, s')) × (r.get_value later key s' ≡ some (some v))

module _ {S : Type 0} (r : Redis S) (keeps : KeepsKeys r) where
  ping-of :
      (d : DedupStore S)
      → d.connected ≡ false
      → (client_or_none r d).connected ≡ true
      → r.ping d.server ≡ true
  unfolding client_or_none
  ping-of d down c = ground arith

  check_and_set-first :
      (now : ℕ) (key v : Text) (d : DedupStore S) (s' : S)
      → (client_or_none r d).connected ≡ true
      → r.set_nx now (full_key key) v d.default_ttl d.server ≡ (some true, s')
      → check_and_set r now key v none d ≡ (none, record d { server = s'; connected = true })
  unfolding check_and_set client_or_none
  check_and_set-first now key v d s' c h = elim (Bool-cases d.connected) [
    | inl up ↦ rw (up, h) refl
    | inr down ↦ rw (down, ping-of d down c, h) refl
  ]

  check_and_set-again :
      (now later : ℕ) (key v w : Text) (ttl : ℕ) (s s' : S)
      → r.set_nx now (full_key key) v ttl s ≡ (some true, s')
      → leb now later ≡ true
      → ltb later (now + ttl) ≡ true
      → let d : DedupStore S = record { server = s'; connected = true; default_ttl = ttl } in
        check_and_set r later key w none d ≡ (some v, d)
  unfolding check_and_set client_or_none
  check_and_set-again now later key v w ttl s s' h a b =
      let k = keeps.kept now later (full_key key) v w ttl ttl s s' h a b in rw (k.0, k.1) refl

nonblank :
    (allowed : List Intent) (req : Envelope)
    → gate allowed req ≡ none
    → is_blank req.client_task_id ≡ false
unfolding gate validate_envelope
nonblank allowed req h = ground arith

on_prior-duplicate :
    {S : Type 0} (r : Redis S) (allowed : List Intent) (now : ℕ) (task_id minted : Text)
    (req : Envelope) (q : Store) (prior : Text) (st : InboxState S)
    → is_blank prior ≡ false
    → on_prior r allowed now task_id minted req q (some prior) st ≡ (duplicate prior, st)
unfolding strip lstrip rstrip text_eq
on_prior-duplicate r allowed now task_id minted req q [] st h = ground arith
on_prior-duplicate r allowed now task_id minted req q (c ∷ prior) st h = refl

module _ {S : Type 0} (r : Redis S) (keeps : KeepsKeys r) (allowed : List Intent) (now later : ℕ)
    (t m t_again m_again : Text) (req : Envelope) (key : Text) (ttl : ℕ) (s s' : S)
    (passes : gate allowed req ≡ none) (has_key : req.idempotency_key ≡ some key)
    (stored : r.set_nx now (full_key key) req.client_task_id ttl s ≡ (some true, s'))
    (after : leb now later ≡ true) (within : ltb later (now + ttl) ≡ true) where
  abbrev holding : DedupStore S
  holding = record { server = s'; connected = true; default_ttl = ttl }

  held-duplicate :
      (q : Store) (st : InboxState S)
      → st.task_queue ≡ some q
      → st.dedup_store ≡ holding
      → post_inbox r allowed later t_again m_again req st ≡ (duplicate req.client_task_id, st)
  unfolding post_inbox
  held-duplicate q st h e =
      rw (h, passes, on_gate)
        (rw (has_key, e, on_key)
          (rw
            (check_and_set-again r keeps now later key req.client_task_id req.client_task_id ttl s
              s' stored after within)
            (on_prior-duplicate r allowed later t_again m_again req q req.client_task_id
              (record { task_queue = some q; dedup_store = holding })
              (nonblank allowed req passes))))

  after_enqueue-duplicate :
      (q : Store) (st : InboxState S) (o : Option Store)
      → st.task_queue ≡ some q
      → st.dedup_store ≡ holding
      → let p = on_enqueue r allowed t req st o in
        post_inbox r allowed later t_again m_again req p.1 ≡ (duplicate req.client_task_id, p.1)
  after_enqueue-duplicate q st none h e = held-duplicate q st h e
  after_enqueue-duplicate q st (some next) h e =
      held-duplicate next (record st { task_queue = some next }) refl e

first-enqueues :
    {S : Type 0} (r : Redis S) (keeps : KeepsKeys r) (allowed : List Intent) (now : ℕ) (t m : Text)
    (req : Envelope) (key : Text) (q : Store) (st : InboxState S) (s' : S)
    → gate allowed req ≡ none
    → req.idempotency_key ≡ some key
    → st.task_queue ≡ some q
    → (client_or_none r st.dedup_store).connected ≡ true
    → r.set_nx now
        (full_key key)
        req.client_task_id
        st.dedup_store.default_ttl
        st.dedup_store.server
      ≡ (some true, s')
    → post_inbox r allowed now t m req st
      ≡ on_enqueue r allowed t req
          (record st { dedup_store = record st.dedup_store { server = s'; connected = true } })
          (enqueue now t (ensure_trace_id m req) q)
unfolding post_inbox
first-enqueues r keeps allowed now t m req key q st s' g k h c stored =
    ap (on_queue r allowed now t m req st) h
    ∙ ap (on_gate r allowed now t m req q st) g
    ∙ ap (on_key r allowed now t m req q st) k
    ∙ ap
        (λ (p : Option Text × DedupStore _).
          on_prior r allowed now t m req q p.0 (record st { dedup_store = p.1 }))
        (check_and_set-first r keeps now key req.client_task_id st.dedup_store s' c stored)

-- A request with an idempotency key, sent twice within the window, is answered `duplicate` the second
-- time, with the task id of the client, and changes nothing more, whatever the first answer was: the
-- checks had passed, the queue was there, and the dedup store answered and stored the key.
pub post_inbox-duplicate :
    {S : Type 0} (r : Redis S) (allowed : List Intent) (now later : ℕ) (t m t_again m_again : Text)
    (req : Envelope) (key : Text) (q : Store) (st : InboxState S) (s' : S)
    → KeepsKeys r
    → gate allowed req ≡ none
    → req.idempotency_key ≡ some key
    → st.task_queue ≡ some q
    → (client_or_none r st.dedup_store).connected ≡ true
    → r.set_nx now
        (full_key key)
        req.client_task_id
        st.dedup_store.default_ttl
        st.dedup_store.server
      ≡ (some true, s')
    → leb now later ≡ true
    → ltb later (now + st.dedup_store.default_ttl) ≡ true
    → let first = post_inbox r allowed now t m req st in
      post_inbox r allowed later t_again m_again req first.1
      ≡ (duplicate req.client_task_id, first.1)
post_inbox-duplicate r allowed now later t m t_again m_again req key q st s' keeps g k h c stored a
      b =
    subst
      (λ (p : InboxResponse × InboxState _).
        post_inbox r allowed later t_again m_again req p.1 ≡ (duplicate req.client_task_id, p.1))
      (sym (first-enqueues r keeps allowed now t m req key q st s' g k h c stored))
      (after_enqueue-duplicate r keeps allowed now later t m t_again m_again req key
        st.dedup_store.default_ttl st.dedup_store.server s' g k stored a b q
        (record st { dedup_store = record st.dedup_store { server = s'; connected = true } })
        (enqueue now t (ensure_trace_id m req) q) h refl)
