-- ===== src/Queue/Store/Expiry.antt =====
-- The two sweeps of store.py: what leaves the queue, what stays, and what is reported.
use langgraph_agents.Base.{
  ℕ, ◌≡◌, refl, inl, inr, Bool, true, false, List, [], ◌∷◌, ◌++◌, map, arith, Text, All, Bool-cases,
  text, not,
}
use langgraph_agents.Queue.Store.{
  Row, DlqRow, Store, TaskClaim, select, reject, overdue, expire_overdue, approval_overdue,
  expire_overdue_approvals, to_claim, to_dead, move_to_dlq, claimable,
}

abbrev pub Excludes : (Row → Bool) → List Row → Type 0
Excludes p = All (λ r. p r ≡ false)

reject-Excludes : (p : Row → Bool) (rows : List Row) → Excludes p (reject p rows)
unfolding reject
reject-Excludes p [] = tt
reject-Excludes p (r ∷ rows) = elim (Bool-cases (p r)) [
  | inl h ↦ rw h (reject-Excludes p rows)
  | inr h ↦ rw h (h, reject-Excludes p rows)
]

select_ids :
    (p : Row → Bool) (error : Text) (rows : List Row)
    → map (λ c. c.task_id) (map to_claim (select p rows))
      ≡ map (λ d. d.id) (map (to_dead error) (select p rows))
unfolding select
select_ids p error [] = refl
select_ids p error (r ∷ rows) = ground (arith, select_ids p error rows)

-- Running the same sweep again at the same instant finds nothing.
select-reject : (p : Row → Bool) (rows : List Row) → select p (reject p rows) ≡ []
unfolding select reject
select-reject p [] = refl
select-reject p (r ∷ rows) = ground (arith, select-reject p rows)

-- The rows outside the condition, which a sweep leaves as they are.
abbrev pub others : (Row → Bool) → List Row → List Row
others p = select (λ r. not (p r))

others-reject : (p : Row → Bool) (rows : List Row) → others p (reject p rows) ≡ others p rows
unfolding select reject
others-reject p [] = refl
others-reject p (r ∷ rows) = ground (arith, others-reject p rows)

dead_ids :
    (p : Row → Bool) (error : Text) (rows : List Row)
    → map (λ d. d.id) (map (to_dead error) (select p rows)) ≡ map (λ r. r.id) (select p rows)
unfolding select
dead_ids p error [] = refl
dead_ids p error (r ∷ rows) = ground (arith, dead_ids p error rows)

-- What a sweep of the store has to do: no row of the condition is left, every other row stays as it
-- is and in its place, the rows of the condition and no others are added to the dead-letter table
-- and reported, under the tag, and a second sweep reports nothing.
pub record IsSwept (p : Row → Bool) (tag : Text) (s : Store) (claims : List TaskClaim)
    (after : Store) : Type 0 where
  pub none_left : Excludes p after.queue
  pub others_stay : others p after.queue ≡ others p s.queue
  pub added : List DlqRow
  pub added_ids : map (λ d. d.id) added ≡ map (λ r. r.id) (select p s.queue)
  pub dead : after.dlq ≡ s.dlq ++ added
  pub reported : map (λ c. c.task_id) claims ≡ map (λ d. d.id) added
  pub tagged : All (λ d. d.last_error ≡ tag) added
  pub once : select p after.queue ≡ []

to_dead-tagged :
    (tag : Text) (rows : List Row) → All (λ d. d.last_error ≡ tag) (map (to_dead tag) rows)
to_dead-tagged tag [] = tt
to_dead-tagged tag (r ∷ rows) = (refl, to_dead-tagged tag rows)

move_to_dlq-IsSwept :
    (p : Row → Bool) (tag : Text) (s : Store)
    → IsSwept p tag s (map to_claim (select p s.queue)) (move_to_dlq p tag s)
move_to_dlq-IsSwept p tag s = record {
  none_left = reject-Excludes p s.queue;
  others_stay = others-reject p s.queue;
  added_ids = dead_ids p tag s.queue;
  added = map (to_dead tag) (select p s.queue);
  dead = refl;
  reported = select_ids p tag s.queue;
  tagged = to_dead-tagged tag (select p s.queue);
  once = select-reject p s.queue;
}

-- The TTL sweep and the approval sweep each leave no overdue row in the queue and every other row as
-- it is and in its place, put exactly the overdue tasks into the dead-letter table under their own
-- tag and report exactly these, and report nothing when they run again at the same instant.
pub sweeps-IsSwept :
    (now : ℕ) (s : Store)
    → IsSwept (overdue now) (text "ttl_expired") s (expire_overdue now s).0 (expire_overdue now s).1
      × IsSwept
          (approval_overdue now)
          (text "approval_ttl_expired")
          s
          (expire_overdue_approvals now s).0
          (expire_overdue_approvals now s).1
unfolding expire_overdue expire_overdue_approvals
sweeps-IsSwept now s = (
  move_to_dlq-IsSwept (overdue now) (text "ttl_expired") s,
  move_to_dlq-IsSwept (approval_overdue now) (text "approval_ttl_expired") s,
)

-- A row is never both overdue and claimable, so that the sweep takes nothing that `dequeue` could
-- still hand out.
pub overdue-not_claimable : (now : ℕ) (r : Row) → overdue now r ≡ true → claimable now r ≡ false
unfolding overdue claimable
overdue-not_claimable now r h = ground arith
