-- ===== src/Queue/Store/Terminal.antt =====
-- Which operations of store.py leave a finished task alone, and which open it again.
use langgraph_agents.Base.{
  ℕ, ◌≡◌, ◌⊎◌, refl, Bool, true, false, Option, List, [], ◌∷◌, arith, Text, text_eq, All,
}
use langgraph_agents.Queue.Envelope.{Envelope, CuratedApproval}
use langgraph_agents.Queue.Store.{
  Row, Store, Status, is_done, is_pending, is_awaiting, update, park_for_approval, nack,
}
use langgraph_agents.Queue.Store.Steps.{Op, enqueued, nacked, parked, buried}

-- Every row of the task has a status that the predicate takes.
abbrev pub StatusIs : (Status → Bool) → Text → List Row → Type 0
StatusIs p t = All (λ r. (text_eq r.id t ≡ false) ⊎ (p r.status ≡ true))

abbrev pub IsDone : Text → List Row → Type 0
IsDone = StatusIs is_done

-- The operations other than the three that a worker applies by id after it has run a task, and
-- other than inserting the same id.
abbrev pub IsGuarded : Text → Op → Type 0
IsGuarded t (enqueued u _) = text_eq u t ≡ false
IsGuarded t (nacked _) = ⊥
IsGuarded t (parked _ _ _) = ⊥
IsGuarded t (buried _ _) = ⊥
IsGuarded t _ = Unit

-- `nack` and `park_for_approval` name the task alone: neither looks at the status or at the claim.
pub update-StatusIs :
    (p : Status → Bool) (t : Text) (f : Row → Row) (rows : List Row)
    → ((r : Row) → (f r).id ≡ r.id)
    → ((r : Row) → p (f r).status ≡ true)
    → StatusIs p t (update t f rows)
unfolding update
update-StatusIs p t f [] same sets = tt
update-StatusIs p t f (r ∷ rows) same sets =
    (ground (arith, same r, sets r), update-StatusIs p t f rows same sets)

-- `nack` returns each row of the task to pending and `park_for_approval` parks it, whatever its status.
nack_reopens :
    (now expires : ℕ) (t : Text) (request : Option CuratedApproval) (s : Store)
    → StatusIs is_pending t (nack now t s).queue
      × StatusIs is_awaiting t (park_for_approval now t expires request s).queue
unfolding nack park_for_approval
nack_reopens now expires t request s = (
  update-StatusIs is_pending t _ s.queue (λ _. refl) (λ _. refl),
  update-StatusIs is_awaiting t _ s.queue (λ _. refl) (λ _. refl),
)
