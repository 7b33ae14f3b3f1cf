-- ===== src/Memory/Writes.antt =====
-- What a write changes of what is read, by the names of the entities.
use langgraph_agents.Base.{
  ℕ, ◌+◌, ◌<◌, ◌≤◌, ◌≡◌, refl, Bool, true, false, none, some, List, [], ◌∷◌, ◌++◌, Text, text_eq,
  text_eq_iff, text_eq_refl, All, Bool-cases, inl, inr, arith,
}
use langgraph_agents.Memory.{
  Entity, Observation, entity_type, find_entity, upsert, is_of, newest, delete_live,
}

pub find_entity-upsert_other :
    (now : ℕ) (name ns other : Text) (es : List Entity)
    → text_eq name other ≡ false
    → find_entity other (upsert now name ns es) ≡ find_entity other es
unfolding find_entity upsert
find_entity-upsert_other now name ns other [] h = rw h refl
find_entity-upsert_other now name ns other (e ∷ es) h = ground (
  arith,
  text_eq_iff e.name name,
  text_eq_iff e.name other,
  text_eq_iff name other,
  find_entity-upsert_other now name ns other es h,
)

-- After an upsert the entity is there.
pub find_entity-upsert_self :
    (now : ℕ) (name ns : Text) (es : List Entity)
    → (e : Entity) × (find_entity name (upsert now name ns es) ≡ some e)
unfolding find_entity upsert
find_entity-upsert_self now name ns [] = (
  record { name = name; kind = entity_type; namespace = ns; created_at = now; updated_at = now },
  rw (text_eq_refl name) refl,
)
find_entity-upsert_self now name ns (e ∷ es) = elim (Bool-cases (text_eq e.name name)) [
  | inl here ↦ (record e { updated_at = now }, rw here (rw here refl))
  | inr later ↦
      let (f, found) = find_entity-upsert_self now name ns es in (f, rw later (rw later found))
]

module _ {W : Type 0} where
  abbrev pub IsBefore : ℕ → Observation W → Type 0
  IsBefore now o = o.created_at < now

  -- The last row is the newest, where it is later than all others and the condition holds of it.
  pub newest-append_last :
      (p : Observation W → Bool) (os : List (Observation W)) (o : Observation W)
      → All (IsBefore o.created_at) os
      → p o ≡ true
      → newest p (os ++ o ∷ []) ≡ some o
  unfolding newest
  newest-append_last p [] o h e = rw e refl
  newest-append_last p (x ∷ os) o h e = rw (newest-append_last p os o h.1 e) (ground (arith, h.0))

  pub newest-append_other :
      (p : Observation W → Bool) (os : List (Observation W)) (o : Observation W)
      → p o ≡ false
      → newest p (os ++ o ∷ []) ≡ newest p os
  unfolding newest
  newest-append_other p [] o e = rw e refl
  newest-append_other p (x ∷ os) o e = rw (newest-append_other p os o e) refl

  pub newest-delete_self :
      (now : ℕ) (name : Text) (os : List (Observation W))
      → newest (is_of name) (delete_live now name os) ≡ none
  unfolding newest delete_live
  newest-delete_self now name [] = refl
  newest-delete_self now name (o ∷ os) = ground (arith, newest-delete_self now name os)

  pub newest-delete_other :
      (now : ℕ) (name other : Text) (os : List (Observation W))
      → text_eq name other ≡ false
      → newest (is_of other) (delete_live now name os) ≡ newest (is_of other) os
  unfolding newest delete_live
  newest-delete_other now name other [] h = refl
  newest-delete_other now name other (o ∷ os) h = ground (
    arith,
    text_eq_iff o.entity name,
    text_eq_iff o.entity other,
    text_eq_iff name other,
    newest-delete_other now name other os h,
  )

  pub append-IsBefore :
      (now : ℕ) (os : List (Observation W)) (o : Observation W)
      → All (IsBefore now) os
      → o.created_at ≤ now
      → All (IsBefore (now + 1)) (os ++ o ∷ [])
  append-IsBefore now [] o h e = (omega arith, tt)
  append-IsBefore now (x ∷ os) o h e = (omega (arith, h.0), append-IsBefore now os o h.1 e)

  pub delete_live-IsBefore :
      (now t : ℕ) (name : Text) (os : List (Observation W))
      → All (IsBefore t) os
      → All (IsBefore t) (delete_live now name os)
  unfolding delete_live
  delete_live-IsBefore now t name [] h = tt
  delete_live-IsBefore now t name (o ∷ os) h =
      (ground (arith, h.0), delete_live-IsBefore now t name os h.1)

  pub later-IsBefore :
      (t u : ℕ) (os : List (Observation W)) → t ≤ u → All (IsBefore t) os → All (IsBefore u) os
  later-IsBefore t u [] l h = tt
  later-IsBefore t u (o ∷ os) l h = (omega (arith, h.0), later-IsBefore t u os l h.1)
