-- ===== src/Memory/Refines.antt =====
-- The memory store against its contract: a map from namespaces and keys to values.
use langgraph_agents.Base.{
  ℕ, ◌+◌, ◌≤◌, ◌≡◌, ◌↔◌, refl, sym, ap, ◌∙◌, Bool, true, false, Option, none, some, List, [], ◌∷◌,
  ◌++◌, ◌&&◌, if◌then◌else◌, Text, text_eq, text_eq_iff, text_eq_refl, free_of, All, Bool-cases,
  inl, inr, arith, Eq, Text_eq, pair_eq, get, put, remove, get-put, get-remove,
}
use langgraph_agents.Memory.{
  Backend, Entity, Observation, Kg, Item, Index, slash, entity_name, entity_namespace, find_entity,
  is_of, newest, delete_live, upsert, to_item, read_row, read_entity, aget, aput, embed,
  embedding_text,
}
use langgraph_agents.Memory.Names.{IsPlain, entity_name_injective}
use langgraph_agents.Memory.Search.{
  Op, OpResult, texts_eq, run_op, abatch, item, got, searched, listed_namespaces,
}
use langgraph_agents.Memory.Writes.{
  IsBefore, find_entity-upsert_other, find_entity-upsert_self, newest-append_last,
  newest-append_other, newest-delete_self, newest-delete_other, append-IsBefore,
  delete_live-IsBefore, later-IsBefore,
}

pub texts_eq_iff : (a b : List Text) → (texts_eq a b ≡ true) ↔ (a ≡ b)
unfolding texts_eq
texts_eq_iff [] [] = ground arith
texts_eq_iff [] (y ∷ ys) = ground arith
texts_eq_iff (x ∷ xs) [] = ground arith
texts_eq_iff (x ∷ xs) (y ∷ ys) = ground (arith, text_eq_iff x y, texts_eq_iff xs ys)

instance abbrev pub Namespace_eq : Eq (List Text)
Namespace_eq = record { beq = texts_eq; beq_iff = texts_eq_iff }

-- The contract: what is stored under each namespace and key.
abbrev pub Memories : Type 0 → Type 0
Memories V = List ((List Text × Text) × V)

abbrev pub value_of : {V : Type 0} → Option (Item V) → Option V
value_of none = none
value_of (some i) = some i.value

abbrev pub remember : {V : Type 0} → List Text → Text → Option V → Memories V → Memories V
remember ns key none m = remove m (ns, key)
remember ns key (some v) m = put m (ns, key) v

abbrev pub spec_step : {V : Type 0} → Op V → Memories V → Memories V
spec_step (Op.put ns key value index) m = remember ns key value m
spec_step _ m = m

-- What the contract says of an answer; it says nothing of the searches.
abbrev pub Answers : {V : Type 0} → Memories V → Op V → OpResult V → Type 0
Answers m (got ns key) (item i) = value_of i ≡ get m (ns, key)
Answers m (got ns key) _ = ⊥
Answers m _ r = Unit

abbrev pub RoundTrips : {V W : Type 0} → Backend V W → Option V → Type 0
RoundTrips b none = Unit
RoundTrips b (some v) = b.parse_value (b.dumps v) ≡ some v

-- An operation on an item with a plain namespace and key, whose value survives its encoding.
abbrev pub IsProper : {V W : Type 0} → Backend V W → Op V → Type 0
IsProper b (got ns key) = IsPlain ns × (free_of slash key ≡ true)
IsProper b (Op.put ns key value index) =
    IsPlain ns × (free_of slash key ≡ true) × RoundTrips b value
IsProper b _ = Unit

-- The operations come one after the other.
abbrev pub AreProper : {V W : Type 0} → Backend V W → ℕ → List (ℕ × Op V) → Type 0
AreProper b t [] = Unit
AreProper b t ((now, op) ∷ ops) = (t ≤ now) × IsProper b op × AreProper b (now + 1) ops

-- Every answer of a batch is the contract's.
abbrev pub AllAnswer : {V : Type 0} → Memories V → List (ℕ × Op V) → List (OpResult V) → Type 0
AllAnswer m [] [] = Unit
AllAnswer m ((now, op) ∷ ops) (r ∷ rs) = Answers m op r × AllAnswer (spec_step op m) ops rs
AllAnswer m _ _ = ⊥

eq-of_iff : (a b : Bool) → (a ≡ true → b ≡ true) → (b ≡ true → a ≡ true) → a ≡ b
eq-of_iff true b f g = sym (f refl)
eq-of_iff false true f g = g refl
eq-of_iff false false f g = refl

-- Two names are the same exactly if the namespaces and the keys are.
name-eq :
    (ns ms : List Text) (k j : Text)
    → IsPlain ns
    → IsPlain ms
    → free_of slash k ≡ true
    → free_of slash j ≡ true
    → text_eq (entity_name ns k) (entity_name ms j) ≡ texts_eq ns ms && text_eq k j
name-eq ns ms k j h g f e =
    eq-of_iff (text_eq (entity_name ns k) (entity_name ms j)) (texts_eq ns ms && text_eq k j)
      (λ same.
        let p =
          entity_name_injective ns ms k j h g f e
            ((text_eq_iff (entity_name ns k) (entity_name ms j)).0 same) in
        rw ((texts_eq_iff ns ms).1 p.0, (text_eq_iff k j).1 p.1) refl)
      (λ same.
        let p = (pair_eq.beq_iff (ns, k) (ms, j)).0 same in
        (text_eq_iff (entity_name ns k) (entity_name ms j)).1
          (ap (λ (q : List Text × Text). entity_name q.0 q.1) p))

module _ {V W : Type 0} (b : Backend V W) where
  abbrev pub value_row : Option (Observation W) → Option V
  value_row none = none
  value_row (some o) = b.parse_value o.content

  abbrev pub value_in : Text → List (Observation W) → Option Entity → Option V
  value_in name os none = none
  value_in name os (some e) = value_row (newest (is_of name) os)

  abbrev pub value_at : Text → Kg W → Option V
  value_at name kg = value_in name kg.observations (find_entity name kg.entities)

  value_of-to_item :
      (ns : List Text) (key : Text) (e : Entity) (o : Option V)
      → value_of (to_item b ns key e o) ≡ o
  value_of-to_item ns key e none = refl
  value_of-to_item ns key e (some v) = refl

  value_of-read_row :
      (ns : List Text) (key : Text) (e : Entity) (o : Option (Observation W))
      → value_of (read_row b ns key e o) ≡ value_row o
  value_of-read_row ns key e none = refl
  value_of-read_row ns key e (some o) = value_of-to_item ns key e (b.parse_value o.content)

  value_of-read_entity :
      (ns : List Text) (key name : Text) (os : List (Observation W)) (o : Option Entity)
      → value_of (read_entity b ns key name os o) ≡ value_in name os o
  value_of-read_entity ns key name os none = refl
  value_of-read_entity ns key name os (some e) = value_of-read_row ns key e (newest (is_of name) os)

  pub value_of-aget :
      (ns : List Text) (key : Text) (kg : Kg W)
      → value_of (aget b ns key kg) ≡ value_at (entity_name ns key) kg
  unfolding aget
  value_of-aget ns key kg =
      value_of-read_entity ns key (entity_name ns key) kg.observations
        (find_entity (entity_name ns key) kg.entities)

  -- What a write does to the value under a name.
  abbrev value_after : Option V → Bool → Option V → Option V
  value_after value same old = if same then value else old

  value_in-newest :
      (name : Text) (os ps : List (Observation W)) (o : Option Entity)
      → newest (is_of name) os ≡ newest (is_of name) ps
      → value_in name os o ≡ value_in name ps o
  value_in-newest name os ps none h = refl
  value_in-newest name os ps (some e) h = ap value_row h

  -- The observation that a write adds.
  abbrev added : ℕ → Text → V → Index → Observation W
  added now name v index = record {
    entity = name;
    content = b.dumps v;
    embedding = embed b (embedding_text b v index);
    created_at = now;
    deleted_at = none;
  }

  added_self :
      (now : ℕ) (name ns : Text) (v : V) (index : Index) (es : List Entity)
      (os : List (Observation W))
      → All (IsBefore now) os
      → b.parse_value (b.dumps v) ≡ some v
      → value_in name (os ++ added now name v index ∷ []) (find_entity name (upsert now name ns es))
        ≡ some v
  added_self now name ns v index es os h r =
      let (e, there) = find_entity-upsert_self now name ns es in
      ap (value_in name (os ++ added now name v index ∷ [])) there
      ∙ ap value_row (
          newest-append_last (is_of name) os (added now name v index) h
            (rw (text_eq_refl name) refl))
      ∙ r

  added_other :
      (now : ℕ) (name ns other : Text) (v : V) (index : Index) (es : List Entity)
      (os : List (Observation W))
      → text_eq name other ≡ false
      → value_in other
          (os ++ added now name v index ∷ [])
          (find_entity other (upsert now name ns es))
        ≡ value_in other os (find_entity other es)
  added_other now name ns other v index es os d =
      ap (value_in other (os ++ added now name v index ∷ []))
        (find_entity-upsert_other now name ns other es d)
      ∙ value_in-newest other (os ++ added now name v index ∷ []) os (find_entity other es)
          (newest-append_other (is_of other) os (added now name v index) (rw d refl))

  deleted_self :
      (now : ℕ) (name : Text) (os : List (Observation W)) (o : Option Entity)
      → value_in name (delete_live now name os) o ≡ none
  deleted_self now name os none = refl
  deleted_self now name os (some e) = ap value_row (newest-delete_self now name os)

  aput-value :
      (now : ℕ) (ns : List Text) (key : Text) (value : Option V) (index : Index) (kg : Kg W)
      (other : Text)
      → All (IsBefore now) kg.observations
      → RoundTrips b value
      → value_at other (aput b now ns key value index kg)
        ≡ value_after value (text_eq (entity_name ns key) other) (value_at other kg)
  unfolding aput
  aput-value now ns key none index kg other h r =
      elim (Bool-cases (text_eq (entity_name ns key) other)) [
        | inl same ↦
            let n = (text_eq_iff (entity_name ns key) other).0 same in
            ap (λ (t : Text). value_at t (aput b now ns key none index kg)) (sym n)
            ∙ deleted_self now (entity_name ns key) kg.observations
                (find_entity (entity_name ns key) kg.entities)
            ∙ ap (λ (c : Bool). value_after none c (value_at other kg)) (sym same)
        | inr differ ↦
            value_in-newest other (delete_live now (entity_name ns key) kg.observations)
              kg.observations (find_entity other kg.entities)
              (newest-delete_other now (entity_name ns key) other kg.observations differ)
            ∙ ap (λ (c : Bool). value_after none c (value_at other kg)) (sym differ)
      ]
  aput-value now ns key (some v) index kg other h r =
      elim (Bool-cases (text_eq (entity_name ns key) other)) [
        | inl same ↦
            let n = (text_eq_iff (entity_name ns key) other).0 same in
            ap (λ (t : Text). value_at t (aput b now ns key (some v) index kg)) (sym n)
            ∙ added_self now (entity_name ns key) (entity_namespace ns) v index kg.entities
                kg.observations h r
            ∙ ap (λ (c : Bool). value_after (some v) c (value_at other kg)) (sym same)
        | inr differ ↦
            added_other now (entity_name ns key) (entity_namespace ns) other v index kg.entities
              kg.observations differ
            ∙ ap (λ (c : Bool). value_after (some v) c (value_at other kg)) (sym differ)
      ]

  -- The store shows the memories, and every observation was made before.
  record IsShowing (now : ℕ) (m : Memories V) (kg : Kg W) : Type 0 where
    agrees :
        (ns : List Text) (key : Text)
        → IsPlain ns
        → free_of slash key ≡ true
        → value_at (entity_name ns key) kg ≡ get m (ns, key)
    before : All (IsBefore now) kg.observations

  get-remember :
      (ns ms : List Text) (k j : Text) (value : Option V) (m : Memories V)
      → get (remember ns k value m) (ms, j)
        ≡ value_after value (texts_eq ns ms && text_eq k j) (get m (ms, j))
  get-remember ns ms k j none m = get-remove m (ns, k) (ms, j)
  get-remember ns ms k j (some v) m = get-put m (ns, k) (ms, j) v

  aput-IsBefore :
      (now : ℕ) (ns : List Text) (key : Text) (value : Option V) (index : Index) (kg : Kg W)
      → All (IsBefore now) kg.observations
      → All (IsBefore (now + 1)) (aput b now ns key value index kg).observations
  unfolding aput
  aput-IsBefore now ns key none index kg h =
      delete_live-IsBefore now (now + 1) (entity_name ns key) kg.observations
        (later-IsBefore now (now + 1) kg.observations (omega arith) h)
  aput-IsBefore now ns key (some v) index kg h =
      append-IsBefore now kg.observations (added now (entity_name ns key) v index) h (omega arith)

  aput-IsShowing :
      (now : ℕ) (ns : List Text) (key : Text) (value : Option V) (index : Index) (m : Memories V)
      (kg : Kg W)
      → IsShowing now m kg
      → IsPlain ns
      → free_of slash key ≡ true
      → RoundTrips b value
      → IsShowing (now + 1) (remember ns key value m) (aput b now ns key value index kg)
  aput-IsShowing now ns key value index m kg s p f r = record {
    agrees = λ ms j q g.
        aput-value now ns key value index kg (entity_name ms j) s.before r
        ∙ ap (λ (c : Bool). value_after value c (value_at (entity_name ms j) kg))
            (name-eq ns ms key j p q f g)
        ∙ ap (value_after value (texts_eq ns ms && text_eq key j)) (s.agrees ms j q g)
        ∙ sym (get-remember ns ms key j value m);
    before = aput-IsBefore now ns key value index kg s.before;
  }

  later-IsShowing :
      (t u : ℕ) (m : Memories V) (kg : Kg W) → t ≤ u → IsShowing t m kg → IsShowing u m kg
  later-IsShowing t u m kg l s = record {
    agrees = s.agrees;
    before = later-IsBefore t u kg.observations l s.before;
  }

  run_op-Answers :
      (now : ℕ) (op : Op V) (m : Memories V) (kg : Kg W)
      → IsShowing now m kg
      → IsProper b op
      → Answers m op (run_op b now op kg).0
        × IsShowing (now + 1) (spec_step op m) (run_op b now op kg).1
  unfolding run_op
  run_op-Answers now (got ns key) m kg s p = (
    value_of-aget ns key kg ∙ s.agrees ns key p.0 p.1,
    later-IsShowing now (now + 1) m kg (omega arith) s,
  )
  run_op-Answers now (Op.put ns key value index) m kg s p =
      (tt, aput-IsShowing now ns key value index m kg s p.0 p.1 p.2)
  run_op-Answers now (searched op) m kg s p =
      (tt, later-IsShowing now (now + 1) m kg (omega arith) s)
  run_op-Answers now (listed_namespaces op) m kg s p =
      (tt, later-IsShowing now (now + 1) m kg (omega arith) s)

  abatch-Answers :
      (t : ℕ) (ops : List (ℕ × Op V)) (m : Memories V) (kg : Kg W)
      → IsShowing t m kg
      → AreProper b t ops
      → AllAnswer m ops (abatch b ops kg).0
  unfolding abatch
  abatch-Answers t [] m kg s p = tt
  abatch-Answers t ((now, op) ∷ ops) m kg s (l, p, rest) =
      let (answer, next) = run_op-Answers now op m kg (later-IsShowing t now m kg l s) p in
      (answer, abatch-Answers (now + 1) ops (spec_step op m) (run_op b now op kg).1 next rest)

  abbrev pub empty_kg : Kg W
  empty_kg = record { entities = []; observations = [] }

  empty-IsShowing : IsShowing 0 [] empty_kg
  unfolding find_entity get
  empty-IsShowing = record { agrees = λ ns key p f. refl; before = tt }

-- The store refines a map from namespaces and keys to values: from an empty database, every `get` of
-- a batch answers with the value that the last `put` of the same namespace and key stored, or with
-- nothing after a deletion or without a `put`, whatever searches and listings stand between. The
-- operations come one after the other in time, the parts of a namespace are not empty, no part and
-- no key contains a slash, and the values survive their encoding.
pub abatch-Refines :
    {V W : Type 0} (b : Backend V W) (ops : List (ℕ × Op V))
    → AreProper b 0 ops
    → AllAnswer [] ops (abatch b ops (empty_kg b)).0
abatch-Refines b ops p = abatch-Answers b 0 ops [] (empty_kg b) (empty-IsShowing b) p
