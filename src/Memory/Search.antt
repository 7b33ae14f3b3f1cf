-- ===== src/Memory/Search.antt =====
-- The search and the listing of namespaces of src/agents/memory_store.py, and the batch of operations.
use langgraph_agents.Base.{
  ℕ, ◌+◌, ◌-◌, Bool, true, false, Option, none, some, List, [], ◌∷◌, ◌++◌, ◌&&◌, ◌||◌, leb,
  if◌then◌else◌, any, all, take, drop, length, or_else, Text, text, text_eq, text_lt,
}
use langgraph_agents.Memory.{
  Backend, Entity, Observation, Kg, Item, Index, entity_type, namespace_root, entity_namespace,
  ns_from_entity_namespace, key_from_entity_name, is_live, newest, embed, aget, aput,
}

-- A row of the join; `distance` is set in the semantic leg.
pub record SearchRow : Type 0 where
  pub entity : Entity
  pub content : Text
  pub distance : Option ℕ

pub record SearchItem (V : Type 0) : Type 0 where
  pub namespace : List Text
  pub key : Text
  pub value : V
  pub distance : Option ℕ

pub record SearchOp : Type 0 where
  pub namespace_prefix : List Text
  pub query : Option Text
  pub limit : ℕ
  pub offset : ℕ

pub data MatchCondition : Type 0 where
  prefix suffix : List Text → MatchCondition
  other : MatchCondition

pub record ListNamespacesOp : Type 0 where
  pub match_conditions : List MatchCondition
  pub max_depth : Option ℕ
  pub limit : ℕ
  pub offset : ℕ

unfoldable pub texts_eq : List Text → List Text → Bool
texts_eq [] [] = true
texts_eq (x ∷ xs) (y ∷ ys) = text_eq x y && texts_eq xs ys
texts_eq _ _ = false

-- One condition: `ns[: len(path)] == path`, `ns[-len(path) :] == path`, where an empty suffix holds.
unfoldable pub matches_condition : List Text → MatchCondition → Bool
matches_condition ns (prefix path) = texts_eq (take (length path) ns) path
matches_condition ns (suffix []) = true
matches_condition ns (suffix (p ∷ path)) =
    texts_eq (drop (length ns - length (p ∷ path)) ns) (p ∷ path)
matches_condition ns other = false

unfoldable pub namespace_matches : List Text → List MatchCondition → Bool
namespace_matches ns conds = all (matches_condition ns) conds

-- `if op.query:`
abbrev pub query_of : Option Text → Option Text
query_of none = none
query_of (some []) = none
query_of (some (c ∷ q)) = some (c ∷ q)

abbrev pub percent : Text
percent = text "%"

-- `like_arg`
abbrev pub pattern_of : Option Text → Text
pattern_of none = percent
pattern_of (some q) = percent ++ (q ++ percent)

-- `ORDER BY o.embedding <=> …`
unfoldable pub insert_nearest : SearchRow → List SearchRow → List SearchRow
insert_nearest r [] = r ∷ []
insert_nearest r (s ∷ rows) =
    let later = insert_nearest r rows in
    if leb (or_else r.distance 0) (or_else s.distance 0) then r ∷ s ∷ rows else s ∷ later

unfoldable pub sort_nearest : List SearchRow → List SearchRow
sort_nearest [] = []
sort_nearest (r ∷ rows) = insert_nearest r (sort_nearest rows)

-- `sorted(set(…))`: the order of tuples of strings.
unfoldable pub texts_lt : List Text → List Text → Bool
texts_lt [] [] = false
texts_lt [] (q ∷ qs) = true
texts_lt (p ∷ ps) [] = false
texts_lt (p ∷ ps) (q ∷ qs) =
    let rest = texts_lt ps qs in if text_lt p q then true else if text_lt q p then false else rest

unfoldable pub insert_unique : List Text → List (List Text) → List (List Text)
insert_unique ns [] = ns ∷ []
insert_unique ns (m ∷ ms) =
    let later = insert_unique ns ms in
    if texts_eq ns m then m ∷ ms else if texts_lt ns m then ns ∷ m ∷ ms else m ∷ later

abbrev pub truncated : Option ℕ → List Text → List Text
truncated none ns = ns
truncated (some depth) ns = take depth ns

module _ {V W : Type 0} (b : Backend V W) where
  unfoldable pub row_to_search_item : SearchRow → Option (SearchItem V)
  row_to_search_item r = elim (b.parse_value r.content) [
    | none ↦ none
    | some v ↦ some (record {
      namespace = ns_from_entity_namespace r.entity.namespace;
      key = key_from_entity_name r.entity.name;
      value = v;
      distance = r.distance;
    })
  ]

  -- The entities of a namespace and of those below it.
  abbrev pub is_within : Text → Entity → Bool
  is_within ns e =
      text_eq e.kind entity_type && (text_eq e.namespace ns || b.like e.namespace (ns ++ text "/%"))

  -- The semantic rows of one entity.
  unfoldable pub distances : W → Entity → List (Observation W) → List SearchRow
  distances v e [] = []
  distances v e (o ∷ os) =
      let rest = distances v e os in
      if text_eq o.entity e.name && is_live o
      then elim o.embedding [
        | none ↦ rest
        | some w ↦
            record { entity = e; content = o.content; distance = some (b.distance w v) } ∷ rest
      ]
      else rest

  unfoldable pub semantic_join : W → Text → List Entity → List (Observation W) → List SearchRow
  semantic_join v ns [] os = []
  semantic_join v ns (e ∷ es) os =
      let rest = semantic_join v ns es os in
      if is_within ns e then distances v e os ++ rest else rest

  unfoldable pub semantic_rows : W → Text → ℕ → Kg W → List SearchRow
  semantic_rows v ns n kg = take n (sort_nearest (semantic_join v ns kg.entities kg.observations))

  -- `DISTINCT ON (e.id) … ORDER BY e.id, o.created_at DESC`, after the condition on the content.
  abbrev pub keyword_row : Entity → Option (Observation W) → List SearchRow → List SearchRow
  keyword_row e none rest = rest
  keyword_row e (some o) rest = record { entity = e; content = o.content; distance = none } ∷ rest

  abbrev pub is_hit : Text → Text → Observation W → Bool
  is_hit name pattern o = (text_eq o.entity name && is_live o) && b.ilike o.content pattern

  unfoldable pub keyword_join : Text → Text → List Entity → List (Observation W) → List SearchRow
  keyword_join ns pattern [] os = []
  keyword_join ns pattern (e ∷ es) os =
      let rest = keyword_join ns pattern es os in
      if is_within ns e then keyword_row e (newest (is_hit e.name pattern) os) rest else rest

  unfoldable pub keyword_rows : Text → Text → ℕ → Kg W → List SearchRow
  keyword_rows ns pattern n kg = take n (keyword_join ns pattern kg.entities kg.observations)

  -- The loop over the rows of a leg: the results, and the entities that were seen.
  unfoldable pub gather :
      ℕ → List SearchRow → List (SearchItem V) × List Text → List (SearchItem V) × List Text
  gather limit [] acc = acc
  gather limit (r ∷ rows) (results, seen) =
      let skip = gather limit rows (results, seen) in
      if any (text_eq r.entity.name) seen then skip else elim (row_to_search_item r) [
        | none ↦ skip
        | some found_item ↦
            let acc : List (SearchItem V) × List Text =
              (results ++ found_item ∷ [], r.entity.name ∷ seen) in
            elim (leb limit (length results + 1)) [ true ↦ acc | false ↦ gather limit rows acc ]
      ]

  abbrev pub semantic_leg : SearchOp → Kg W → Option Text → List (SearchItem V) × List Text
  semantic_leg op kg none = ([], [])
  semantic_leg op kg (some q) = elim (embed b q) [
    | none ↦ ([], [])
    | some v ↦
        gather op.limit
          (drop op.offset
            (semantic_rows v (entity_namespace op.namespace_prefix) (op.limit + op.offset) kg))
          ([], [])
  ]

  -- The keyword leg runs unless the semantic one has returned.
  abbrev pub keyword_leg : SearchOp → Kg W → List (SearchItem V) × List Text → List (SearchItem V)
  keyword_leg op kg (results, seen) =
      if leb 1 (length results) && leb op.limit (length results)
      then results
      else (gather op.limit
          (drop op.offset (
            keyword_rows (entity_namespace op.namespace_prefix) (pattern_of (query_of op.query))
              (op.limit + op.offset) kg))
          (results, seen)).0

  unfoldable pub asearch : SearchOp → Kg W → List (SearchItem V)
  asearch op kg = keyword_leg op kg (semantic_leg op kg (query_of op.query))

  -- The loop over the rows, and the sorted set.
  unfoldable pub listed : ListNamespacesOp → List Entity → List (List Text)
  listed op [] = []
  listed op (e ∷ es) =
      let rest = listed op es in
      let ns = truncated op.max_depth (ns_from_entity_namespace e.namespace) in
      if is_within namespace_root e && namespace_matches ns op.match_conditions
      then insert_unique ns rest
      else rest

  unfoldable pub alist_namespaces : ListNamespacesOp → Kg W → List (List Text)
  alist_namespaces op kg = take op.limit (drop op.offset (listed op kg.entities))

pub data Op (V : Type 0) : Type 0 where
  got : (namespace : List Text) → (key : Text) → Op V
  put : (namespace : List Text) → (key : Text) → (value : Option V) → Index → Op V
  searched : SearchOp → Op V
  listed_namespaces : ListNamespacesOp → Op V

pub data OpResult (V : Type 0) : Type 0 where
  item : Option (Item V) → OpResult V
  done : OpResult V
  found : List (SearchItem V) → OpResult V
  namespaces : List (List Text) → OpResult V

module _ {V W : Type 0} (b : Backend V W) where
  unfoldable pub run_op : ℕ → Op V → Kg W → OpResult V × Kg W
  run_op now (got ns key) kg = (item (aget b ns key kg), kg)
  run_op now (put ns key value index) kg = (done, aput b now ns key value index kg)
  run_op now (searched op) kg = (found (asearch b op kg), kg)
  run_op now (listed_namespaces op) kg = (namespaces (alist_namespaces b op kg), kg)

  -- Each operation with its time.
  unfoldable pub abatch : List (ℕ × Op V) → Kg W → List (OpResult V) × Kg W
  abatch [] kg = ([], kg)
  abatch ((now, op) ∷ ops) kg =
      let (r, next) = run_op now op kg in let (rs, last) = abatch ops next in (r ∷ rs, last)
