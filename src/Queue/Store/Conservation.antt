-- ===== src/Queue/Store/Conservation.antt =====
-- No operation of store.py loses or duplicates a task between the two tables.
use langgraph_agents.Base.{
  ℕ, sym, ap, ◌+◌, ◌≤◌, ◌≡◌, refl, ◌∙◌, Bool, Option, List, [], ◌∷◌, ◌++◌, map, arith,
  if◌then◌else◌, Text, text_eq, text_eq_iff, any, Option-cases, inl, inr,
}
use native.Mathlib.Nat.{add-zero}
use langgraph_agents.Queue.Store.Steps.{
  Op, enqueued, dequeued, acked, nacked, parked, resolved, buried, swept, swept_approvals, or_same,
  step, brings,
}
use langgraph_agents.Queue.Envelope.{Envelope}
use langgraph_agents.Queue.Store.{
  Row, DlqRow, Store, update, select, reject, to_dead, move_to_dlq, collides, fresh_row, enqueue,
  oldest, claim_row, dequeue, ack, park_for_approval, resolve_approval, resolve_row, nack, to_dlq,
  expire_overdue, expire_overdue_approvals,
}

unfoldable pub count_rows : Text → List Row → ℕ
count_rows t [] = 0
count_rows t (r ∷ rows) = (if text_eq r.id t then 1 else 0) + count_rows t rows

unfoldable pub count_dead : Text → List DlqRow → ℕ
count_dead t [] = 0
count_dead t (r ∷ rows) = (if text_eq r.id t then 1 else 0) + count_dead t rows

-- How often a task stands in the two tables.
unfoldable pub tally : Text → Store → ℕ
unfolding count_rows count_dead
tally t s = count_rows t s.queue + count_dead t s.dlq

count-append :
    (t : Text) (xs ys : List Row) → count_rows t (xs ++ ys) ≡ count_rows t xs + count_rows t ys
unfolding count_rows
count-append t [] ys = omega arith
count-append t (x ∷ xs) ys = omega (arith, count-append t xs ys)

count_dead-append :
    (t : Text) (xs ys : List DlqRow) → count_dead t (xs ++ ys) ≡ count_dead t xs + count_dead t ys
unfolding count_dead
count_dead-append t [] ys = omega arith
count_dead-append t (x ∷ xs) ys = omega (arith, count_dead-append t xs ys)

abbrev KeepsId : (Row → Row) → Type 0
KeepsId f = (r : Row) → (f r).id ≡ r.id

count-update :
    (t u : Text) (f : Row → Row) (rows : List Row)
    → KeepsId f
    → count_rows t (update u f rows) ≡ count_rows t rows
unfolding count_rows update
count-update t u f [] h = refl
count-update t u f (r ∷ rows) h = ground (arith, count-update t u f rows h, h r)

-- What is deleted from one table stands in the other.
count-reject-select :
    (t error : Text) (p : Row → Bool) (rows : List Row)
    → count_rows t (reject p rows) + count_dead t (map (to_dead error) (select p rows))
      ≡ count_rows t rows
unfolding count_rows count_dead reject select
count-reject-select t error p [] = omega arith
count-reject-select t error p (r ∷ rows) = ground (arith, count-reject-select t error p rows)

pub tally-move_to_dlq :
    (t error : Text) (p : Row → Bool) (s : Store) → tally t (move_to_dlq p error s) ≡ tally t s
unfolding tally
tally-move_to_dlq t error p s = omega (
  arith,
  count_dead-append t s.dlq (map (to_dead error) (select p s.queue)),
  count-reject-select t error p s.queue,
)

pub tally-update :
    (t u : Text) (f : Row → Row) (s : Store)
    → KeepsId f
    → tally t (record s { queue = update u f s.queue }) ≡ tally t s
unfolding tally
tally-update t u f s h = ap (λ (n : ℕ). n + count_dead t s.dlq) (count-update t u f s.queue h)

tally-enqueue :
    (now : ℕ) (t u : Text) (e : Envelope) (s : Store)
    → tally t (or_same (enqueue now u e s) s)
      ≡ tally t s + (if any (collides u e) s.queue then 0 else if text_eq u t then 1 else 0)
unfolding tally enqueue count_rows
tally-enqueue now t u e s = ground (arith, count-append t s.queue (fresh_row u e now ∷ []))

tally-dequeue :
    (now timeout : ℕ) (t worker : Text) (s : Store)
    → tally t (dequeue now timeout worker s).1 ≡ tally t s
unfolding dequeue
tally-dequeue now timeout t worker s = elim (Option-cases (oldest now s.queue)) [
  | inl nothing ↦ rw (nothing, dequeue)
  | inr (r, found) ↦
      rw (found, dequeue) (tally-update t r.id (claim_row now timeout worker) s (λ _. refl))
]

resolved_id : (now : ℕ) (output : Option Text) → KeepsId (resolve_row now output)
resolved_id now output r = ground arith

-- Whatever the operation, and with every other worker's operations before it, the number of times
-- that a task stands in the two tables together changes only when a new task is inserted, and then
-- by one and for that task: no task is lost or doubled on any path.
pub tally-step :
    (now : ℕ) (op : Op) (t : Text) (s : Store)
    → tally t (step now op s) ≡ tally t s + brings now t op s
unfolding step
tally-step now (enqueued u e) t s = tally-enqueue now t u e s
tally-step now (dequeued timeout worker) t s =
    tally-dequeue now timeout t worker s ∙ sym (add-zero _)
tally-step now (acked u) t s = unfold ack in (tally-update t u _ s (λ _. refl) ∙ sym (add-zero _))
tally-step now (nacked u) t s = unfold nack in (tally-update t u _ s (λ _. refl) ∙ sym (add-zero _))
tally-step now (parked u expires request) t s =
    unfold park_for_approval in (tally-update t u _ s (λ _. refl) ∙ sym (add-zero _))
tally-step now (resolved u output) t s =
    unfold resolve_approval in (tally-update t u _ s (resolved_id now output) ∙ sym (add-zero _))
tally-step now (buried u error) t s =
    unfold to_dlq in (tally-move_to_dlq t error _ s ∙ sym (add-zero _))
tally-step now swept t s = unfold expire_overdue in (tally-move_to_dlq t _ _ s ∙ sym (add-zero _))
tally-step now swept_approvals t s =
    unfold expire_overdue_approvals in (tally-move_to_dlq t _ _ s ∙ sym (add-zero _))

-- A history of operations, each at its instant.
pub run : List (ℕ × Op) → Store → Store
run [] s = s
run ((now, op) ∷ history) s = run history (step now op s)

-- A generated ULID stands in neither table.
abbrev pub NewId : Op → Store → Type 0
NewId (enqueued t e) s = tally t s ≡ 0
NewId _ s = Unit

abbrev pub IsFresh : List (ℕ × Op) → Store → Type 0
IsFresh [] s = Unit
IsFresh ((now, op) ∷ history) s = NewId op s × IsFresh history (step now op s)

abbrev pub IsUnique : Store → Type 0
IsUnique s = (t : Text) → tally t s ≤ 1

brings-le :
    (now : ℕ) (op : Op) (s : Store) (t : Text)
    → NewId op s
    → tally t s ≤ 1
    → tally t s + brings now t op s ≤ 1
brings-le now (enqueued u e) s t new h = ground (arith, text_eq_iff u t)
brings-le now _ s t new h = ground arith

step-IsUnique : (now : ℕ) (op : Op) (s : Store) → NewId op s → IsUnique s → IsUnique (step now op s)
step-IsUnique now op s new h t = rw (tally-step now op t s) (brings-le now op s t new (h t))

-- If every generated id is new when it is generated, then after any history of operations no task
-- stands twice in the queue and the dead-letter table together.
pub run-IsUnique :
    (history : List (ℕ × Op)) (s : Store)
    → IsFresh history s
    → IsUnique s
    → IsUnique (run history s)
unfolding run
run-IsUnique [] s fresh h = h
run-IsUnique ((now, op) ∷ history) s fresh h =
    run-IsUnique history (step now op s) fresh.1 (step-IsUnique now op s fresh.0 h)
