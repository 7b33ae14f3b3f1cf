-- ===== src/Queue/Worker/Retries.antt =====
-- A task whose graph always fails.
use langgraph_agents.Base.{
  ℕ, ap, ◌∙◌, ◌+◌, ◌<◌, ◌≡◌, refl, true, false, none, some, List, [], ◌∷◌, ◌++◌, ltb, arith, Text,
  text_eq_refl, length, or_else,
}
use langgraph_agents.Queue.Store.{
  Store, Row, DlqRow, Status, TaskClaim, claimable, oldest, older, dequeue, claim_row, to_claim,
  to_dead, update, select, reject, nack, to_dlq, attempts_remaining,
}
use langgraph_agents.Queue.Worker.{
  Deployment, Graph, raised, State, handle_one, settle, failed, thread_id, run_once, run,
}

-- The store with this one task in the queue.
abbrev pub only : Row → List DlqRow → Store
only r dead = record { queue = r ∷ []; dlq = dead }

abbrev released : ℕ → Row → Row
released now r = record r {
  status = Status.pending;
  claimed_by = none;
  visibility_timeout_at = none;
  updated_at = now;
}

-- The row after a claim and a `nack`.
abbrev retried : ℕ → ℕ → Text → Row → Row
retried now timeout worker r = released now (claim_row now timeout worker r)

-- The store after the task has left the queue.
abbrev buried : Text → Row → List DlqRow → Store
buried error r dead = record { queue = []; dlq = dead ++ to_dead error r ∷ [] }

-- A pending task without a time to live.
pub record IsWaiting (r : Row) : Type 0 where
  pub is_pending : r.status ≡ Status.pending
  pub no_deadline : r.ttl_expires_at ≡ none

abbrev pub max_attempts : Deployment → Row → ℕ
max_attempts d r = or_else r.envelope.max_attempts d.default_max_attempts

waiting-claimable : (now : ℕ) (r : Row) → IsWaiting r → claimable now r ≡ true
unfolding claimable
waiting-claimable now r w = simp (w.is_pending, w.no_deadline)

oldest-only : (now : ℕ) (r : Row) → IsWaiting r → oldest now (r ∷ []) ≡ some r
unfolding oldest older
oldest-only now r w = rw (waiting-claimable now r w) refl

dequeue-only :
    (now timeout : ℕ) (worker : Text) (r : Row) (dead : List DlqRow)
    → IsWaiting r
    → dequeue now timeout worker (only r dead) ≡ (
      some (to_claim (claim_row now timeout worker r)),
      only (claim_row now timeout worker r) dead,
    )
unfolding dequeue update
dequeue-only now timeout worker r dead w =
    rw (oldest-only now r w, dequeue) (rw (text_eq_refl r.id) refl)

nack-only :
    (now : ℕ) (r : Row) (dead : List DlqRow)
    → nack now r.id (only r dead) ≡ only (released now r) dead
unfolding nack update
nack-only now r dead = simp text_eq_refl

to_dlq-only :
    (error : Text) (r : Row) (dead : List DlqRow)
    → to_dlq r.id error (only r dead) ≡ buried error r dead
unfolding to_dlq select reject
to_dlq-only error r dead = simp text_eq_refl

remaining-again :
    (d : Deployment) (r : Row)
    → ltb r.attempts (max_attempts d r) ≡ true
    → ltb 0 (attempts_remaining d.default_max_attempts (to_claim r)) ≡ true
unfolding attempts_remaining
remaining-again d r h = ground arith

remaining-last :
    (d : Deployment) (r : Row)
    → ltb r.attempts (max_attempts d r) ≡ false
    → ltb 0 (attempts_remaining d.default_max_attempts (to_claim r)) ≡ false
unfolding attempts_remaining
remaining-last d r h = ground arith

module _ (d : Deployment) (graph : Graph) (timeout : ℕ) (worker error : Text)
    (fails : (t : Text) (c : TaskClaim) → graph.invoke t c ≡ raised error) where
  handle_one-failed :
      (now : ℕ) (claim : TaskClaim) (st : State)
      → handle_one d graph now claim st ≡ failed d now claim error st
  unfolding handle_one
  handle_one-failed now claim st = rw (fails (thread_id claim) claim) (unfold settle in refl)

  failed-again :
      (now : ℕ) (r : Row) (dead : List DlqRow) (st : State)
      → ltb r.attempts (max_attempts d r) ≡ true
      → failed d now (to_claim r) error (record st { store = only r dead })
        ≡ record st { store = only (released now r) dead }
  unfolding failed
  failed-again now r dead st more =
      rw (remaining-again d r more)
        (ap (λ (x : Store). record st { store = x }) (nack-only now r dead))

  failed-last :
      (now : ℕ) (r : Row) (dead : List DlqRow) (st : State)
      → ltb r.attempts (max_attempts d r) ≡ false
      → failed d now (to_claim r) error (record st { store = only r dead })
        ≡ record st { store = buried error r dead }
  unfolding failed
  failed-last now r dead st last =
      rw (remaining-last d r last)
        (ap (λ (x : Store). record st { store = x }) (to_dlq-only error r dead))

  once-again :
      (now : ℕ) (r : Row) (dead : List DlqRow) (st : State)
      → IsWaiting r
      → ltb (r.attempts + 1) (max_attempts d r) ≡ true
      → run_once d graph now timeout worker (record st { store = only r dead })
        ≡ record st { store = only (retried now timeout worker r) dead }
  unfolding run_once
  once-again now r dead st w more =
      let claimed_row = claim_row now timeout worker r in
      rw (dequeue-only now timeout worker r dead w) (
        handle_one-failed now (to_claim claimed_row) (record st { store = only claimed_row dead })
        ∙ failed-again now claimed_row dead st more)

  once-last :
      (now : ℕ) (r : Row) (dead : List DlqRow) (st : State)
      → IsWaiting r
      → ltb (r.attempts + 1) (max_attempts d r) ≡ false
      → run_once d graph now timeout worker (record st { store = only r dead })
        ≡ record st { store = buried error (claim_row now timeout worker r) dead }
  unfolding run_once
  once-last now r dead st w last =
      let claimed_row = claim_row now timeout worker r in
      rw (dequeue-only now timeout worker r dead w) (
        handle_one-failed now (to_claim claimed_row) (record st { store = only claimed_row dead })
        ∙ failed-last now claimed_row dead st last)

-- The dead-letter row of the task, after all its attempts.
abbrev pub exhausted : Text → ℕ → Row → DlqRow
exhausted error attempts r = record {
  id = r.id;
  envelope = r.envelope;
  attempts = attempts;
  last_error = error;
}

-- A task alone in the queue, pending and without a time to live, whose graph fails on every
-- invocation, is in the dead-letter table after exactly the attempts that its retry policy has
-- left, with the count of all of them and the error, and the queue is empty.
pub retries-exhausted :
    (d : Deployment) (graph : Graph) (timeout : ℕ) (worker error : Text) (times : List ℕ) (r : Row)
    (dead : List DlqRow) (st : State)
    → ((t : Text) (c : TaskClaim) → graph.invoke t c ≡ raised error)
    → IsWaiting r
    → 0 < length times
    → r.attempts + length times ≡ max_attempts d r
    → run d graph times timeout worker (record st { store = only r dead }) ≡ record st {
      store = record { queue = []; dlq = dead ++ exhausted error (max_attempts d r) r ∷ [] };
    }
unfolding run
retries-exhausted d graph timeout worker error [] r dead st fails w p n = absurd (omega arith)
retries-exhausted d graph timeout worker error (now ∷ []) r dead st fails w p n =
    once-last d graph timeout worker error fails now r dead st w (ground arith)
    ∙ ap
        (λ (k : ℕ). record st {
          store = record { queue = []; dlq = dead ++ exhausted error k r ∷ [] };
        })
        (omega arith)
retries-exhausted d graph timeout worker error (now ∷ later ∷ times) r dead st fails w p n =
    rw (once-again d graph timeout worker error fails now r dead st w (ground arith)) (
      retries-exhausted d graph timeout worker error (later ∷ times) (retried now timeout worker r)
        dead st fails (record { is_pending = refl; no_deadline = w.no_deadline }) (omega arith)
        (omega arith))
