-- ===== src/Queue/Store/Claims.antt =====
-- What `dequeue` of store.py hands to a worker, and the retry budget.
use mathlib.Core.Path.{subst}
use langgraph_agents.Base.{
  ℕ, ◌+◌, ◌≤◌, ◌≡◌, ◌⊎◌, sym, refl, inl, inr, true, false, Option, none, some, List, [], ◌∷◌, arith,
  leb, Text, Bool-cases, All,
}
use langgraph_agents.Queue.Store.{
  Row, Store, TaskClaim, update, claimable, older, oldest, claim_row, dequeue, is_before,
}

-- The row stands in the list.
abbrev pub IsIn : Row → List Row → Type 0
IsIn r [] = ⊥
IsIn r (x ∷ rows) = (r ≡ x) ⊎ IsIn r rows

-- No claimable row of the list was created before the time.
abbrev pub NoneOlder : ℕ → ℕ → List Row → Type 0
NoneOlder now t = All (λ r. (claimable now r ≡ false) ⊎ (t ≤ r.created_at))

NoneOlder-le :
    (now : ℕ) {t u : ℕ} (rows : List Row) → u ≤ t → NoneOlder now t rows → NoneOlder now u rows
NoneOlder-le now [] h none_older = tt
NoneOlder-le now (r ∷ rows) h none_older =
    (ground (arith, none_older.0), NoneOlder-le now rows h none_older.1)

abbrev pub NoneClaimable : ℕ → List Row → Type 0
NoneClaimable now = All (λ r. claimable now r ≡ false)

NoneClaimable-NoneOlder :
    (now t : ℕ) (rows : List Row) → NoneClaimable now rows → NoneOlder now t rows
NoneClaimable-NoneOlder now t [] h = tt
NoneClaimable-NoneOlder now t (r ∷ rows) h = (inl h.0, NoneClaimable-NoneOlder now t rows h.1)

-- The row is the one that `ORDER BY created_at LIMIT 1` finds among the claimable rows.
abbrev pub IsOldest : ℕ → List Row → Row → Type 0
IsOldest now rows r = IsIn r rows × (claimable now r ≡ true) × NoneOlder now r.created_at rows

-- What `oldest` says of the list.
abbrev pub Finds : ℕ → List Row → Option Row → Type 0
Finds now rows none = NoneClaimable now rows
Finds now rows (some r) = IsOldest now rows r

older_first : (x r : Row) → leb x.created_at r.created_at ≡ true → older x (some r) ≡ x
unfolding older
older_first x r h = rw h

older_later : (x r : Row) → leb x.created_at r.created_at ≡ false → older x (some r) ≡ r
unfolding older
older_later x r h = rw h

Finds-cons :
    (now : ℕ) (x : Row) (rows : List Row) (o : Option Row)
    → Finds now rows o
    → claimable now x ≡ true
    → IsOldest now (x ∷ rows) (older x o)
unfolding older
Finds-cons now x rows none f c =
    (inl refl, c, (inr (omega arith), NoneClaimable-NoneOlder now _ rows f))
Finds-cons now x rows (some r) f c = elim (Bool-cases (leb x.created_at r.created_at)) [
  | inl first ↦
      subst (IsOldest now (x ∷ rows)) (sym (older_first x r first))
        (inl refl, c, (inr (omega arith), NoneOlder-le now rows (ground arith) f.2))
  | inr later ↦
      subst (IsOldest now (x ∷ rows)) (sym (older_later x r later))
        (inr f.0, f.1, (inr (ground arith), f.2))
]

Finds-skip :
    (now : ℕ) (x : Row) (rows : List Row) (o : Option Row)
    → Finds now rows o
    → claimable now x ≡ false
    → Finds now (x ∷ rows) o
Finds-skip now x rows none f c = (c, f)
Finds-skip now x rows (some r) f c = (inr f.0, f.1, (inl c, f.2))

pub oldest-Finds : (now : ℕ) (rows : List Row) → Finds now rows (oldest now rows)
unfolding oldest
oldest-Finds now [] = tt
oldest-Finds now (x ∷ rows) =
    let ih = oldest-Finds now rows in
    elim (Bool-cases (claimable now x)) [
      | inl c ↦ rw c (Finds-cons now x rows (oldest now rows) ih c)
      | inr c ↦ rw c (Finds-skip now x rows (oldest now rows) ih c)
    ]

-- The claim is of the oldest claimable row, its count of attempts is one more than before, and the
-- store holds it as claimed by the worker until the visibility timeout.
pub record IsClaim (now timeout : ℕ) (worker : Text) (s : Store) (claim : TaskClaim) (after : Store)
    : Type 0 where
  pub row : Row
  pub oldest_row : IsOldest now s.queue row
  pub same_id : claim.task_id ≡ row.id
  pub same_envelope : claim.envelope ≡ row.envelope
  pub one_more : claim.attempts ≡ row.attempts + 1
  pub stored : after ≡ record s { queue = update row.id (claim_row now timeout worker) s.queue }

abbrev pub Dequeues : ℕ → ℕ → Text → Store → Option TaskClaim × Store → Type 0
Dequeues now timeout worker s (none, after) = NoneClaimable now s.queue × (after ≡ s)
Dequeues now timeout worker s (some claim, after) = IsClaim now timeout worker s claim after

dequeue_of :
    (now timeout : ℕ) (worker : Text) (s : Store) (o : Option Row)
    → oldest now s.queue ≡ o
    → Finds now s.queue o
    → Dequeues now timeout worker s (dequeue now timeout worker s)
unfolding dequeue
dequeue_of now timeout worker s none e f = rw (e, dequeue) (f, refl)
dequeue_of now timeout worker s (some r) e f =
    rw (e, dequeue)
      (record {
        row = r;
        oldest_row = f;
        same_id = refl;
        same_envelope = refl;
        one_more = refl;
        stored = refl;
      })

-- `dequeue` returns a claim of the oldest row that is pending, or claimed past its visibility
-- timeout, and that is within its time to live, with one more attempt counted and the row claimed
-- for the timeout; it returns nothing, and changes nothing, exactly when there is no such row.
pub dequeue-Dequeues :
    (now timeout : ℕ) (worker : Text) (s : Store)
    → Dequeues now timeout worker s (dequeue now timeout worker s)
dequeue-Dequeues now timeout worker s =
    dequeue_of now timeout worker s (oldest now s.queue) refl (oldest-Finds now s.queue)

-- A row past its time to live is never claimable, whatever its status.
pub claimable-alive :
    (now : ℕ) (r : Row) → claimable now r ≡ true → is_before r.ttl_expires_at now ≡ false
unfolding claimable
claimable-alive now r h = ground arith
