-- ===== src/Memory/Stale.antt =====
-- Where the store departs from its contract: searches that find what was overwritten, and keys that
-- contain the separator.
use langgraph_agents.Base.{
  ℕ, ◌≡◌, refl, sym, ap, ◌∙◌, true, false, none, some, List, [], ◌∷◌, ◌++◌, map, Text, text_eq_refl,
  free_of, join, take,
}
use langgraph_agents.Memory.{
  Backend, Index, Kg, Entity, slash, root_slash, entity_name, entity_namespace, upsert, newest,
  aget, aput, embed, entity_type,
}
use langgraph_agents.Memory.Names.{IsPlain, snoc, name_parts}
use langgraph_agents.Memory.Search.{
  SearchOp, SearchRow, asearch, keyword_rows, keyword_join, is_within, gather, semantic_leg,
  keyword_leg, row_to_search_item, pattern_of,
}
use langgraph_agents.Memory.Refines.{empty_kg, value_of, value_at, value_of-aget}

-- A search with the default limit.
abbrev pub search_for : List Text → Text → SearchOp
search_for ns query = record { namespace_prefix = ns; query = some query; limit = 10; offset = 0 }

module _ {V W : Type 0} (b : Backend V W) where
  -- Two values stored under one key, one after the other.
  abbrev pub overwritten : (t u : ℕ) → List Text → Text → V → V → Kg W
  overwritten t u ns key old new =
      aput b u ns key (some new) Index.unindexed
        (aput b t ns key (some old) Index.unindexed (empty_kg b))

module _ {V W : Type 0} (b : Backend V W) (t u : ℕ) (ns : List Text) (key : Text) (old new : V)
    (c : ℕ) (q : Text) (reads : b.parse_value (b.dumps old) ≡ some old)
    (offline : embed b (c ∷ q) ≡ none)
    (hit : b.ilike (b.dumps old) (pattern_of (some (c ∷ q))) ≡ true)
    (miss : b.ilike (b.dumps new) (pattern_of (some (c ∷ q))) ≡ false) where
  abbrev item_of : Entity
  item_of = record {
    name = entity_name ns key;
    kind = entity_type;
    namespace = entity_namespace ns;
    created_at = t;
    updated_at = u;
  }

  abbrev row_of : SearchRow
  row_of = record { entity = item_of; content = b.dumps old; distance = none }

  upserted :
      upsert u
        (entity_name ns key)
        (entity_namespace ns)
        (upsert t (entity_name ns key) (entity_namespace ns) [])
      ≡ item_of ∷ []
  unfolding upsert
  upserted = rw (text_eq_refl (entity_name ns key)) refl

  within : is_within b (entity_namespace ns) item_of ≡ true
  within = rw (text_eq_refl entity_type, text_eq_refl (entity_namespace ns)) refl

  join-old :
      keyword_join b
        (entity_namespace ns)
        (pattern_of (some (c ∷ q)))
        (overwritten b t u ns key old new).entities
        (overwritten b t u ns key old new).observations
      ≡ row_of ∷ []
  unfolding keyword_join aput newest
  join-old = rw upserted (rw within (rw (text_eq_refl (entity_name ns key), hit, miss) refl))

  rows-old :
      keyword_rows b
        (entity_namespace ns)
        (pattern_of (some (c ∷ q)))
        10
        (overwritten b t u ns key old new)
      ≡ row_of ∷ []
  unfolding keyword_rows
  rows-old = ap (take 10) join-old

  gathered : map (λ i. i.value) (gather b 10 (row_of ∷ []) ([], [])).0 ≡ old ∷ []
  unfolding gather row_to_search_item
  gathered = rw reads refl

  leg-empty :
      semantic_leg b (search_for ns (c ∷ q)) (overwritten b t u ns key old new) (some (c ∷ q))
      ≡ ([], [])
  leg-empty = rw (offline, semantic_leg) refl

  search-old :
      map (λ i. i.value) (asearch b (search_for ns (c ∷ q)) (overwritten b t u ns key old new))
      ≡ old ∷ []
  unfolding asearch
  search-old =
      ap
        (λ leg.
          map (λ i. i.value)
            (keyword_leg b (search_for ns (c ∷ q)) (overwritten b t u ns key old new) leg))
        leg-empty
      ∙ ap (λ rows. map (λ i. i.value) (gather b 10 rows ([], [])).0) rows-old
      ∙ gathered

-- After two writes of one item, a search for a text of the first value alone, with the default limit
-- and without the embedding service, answers with the first value, which the second has replaced.
pub asearch-stale :
    {V W : Type 0} (b : Backend V W) (t u : ℕ) (ns : List Text) (key : Text) (old new : V) (c : ℕ)
    (q : Text)
    → b.parse_value (b.dumps old) ≡ some old
    → embed b (c ∷ q) ≡ none
    → b.ilike (b.dumps old) (pattern_of (some (c ∷ q))) ≡ true
    → b.ilike (b.dumps new) (pattern_of (some (c ∷ q))) ≡ false
    → map (λ i. i.value) (asearch b (search_for ns (c ∷ q)) (overwritten b t u ns key old new))
      ≡ old ∷ []
asearch-stale b t u ns key old new c q r o h m = search-old b t u ns key old new c q r o h m

snoc-IsPlain :
    (ns : List Text) (c : ℕ) (part : Text)
    → IsPlain ns
    → free_of slash (c ∷ part) ≡ true
    → IsPlain (snoc ns (c ∷ part))
snoc-IsPlain [] c part h f = (f, tt)
snoc-IsPlain ([] ∷ ns) c part h f = elim h [ ]
snoc-IsPlain ((d ∷ p) ∷ ns) c part h f = (h.0, snoc-IsPlain ns c part h.1 f)

join-regrouped :
    (ns : List Text) (p k : Text)
    → join slash (snoc (snoc ns p) k) ≡ join slash (snoc ns (p ++ slash ∷ k))
join-regrouped [] p k = refl
join-regrouped (x ∷ []) p k = refl
join-regrouped (x ∷ y ∷ ns) p k = ap (λ (t : Text). x ++ slash ∷ t) (join-regrouped (y ∷ ns) p k)

-- A key that contains the separator names the item of a longer namespace: the two read the same
-- value from every database, where no part of the namespaces is empty or contains a slash.
aget-collides :
    {V W : Type 0} (b : Backend V W) (ns : List Text) (c : ℕ) (part key : Text) (kg : Kg W)
    → IsPlain ns
    → free_of slash (c ∷ part) ≡ true
    → value_of (aget b (snoc ns (c ∷ part)) key kg)
      ≡ value_of (aget b ns ((c ∷ part) ++ slash ∷ key) kg)
aget-collides b ns c part key kg h f =
    let names : entity_name (snoc ns (c ∷ part)) key ≡ entity_name ns ((c ∷ part) ++ slash ∷ key) =
      name_parts (snoc ns (c ∷ part)) key (snoc-IsPlain ns c part h f)
      ∙ ap (λ (t : Text). root_slash ++ t) (join-regrouped ns (c ∷ part) key)
      ∙ sym (name_parts ns ((c ∷ part) ++ slash ∷ key) h) in
    value_of-aget b (snoc ns (c ∷ part)) key kg
    ∙ ap (λ (t : Text). value_at b t kg) names
    ∙ sym (value_of-aget b ns ((c ∷ part) ++ slash ∷ key) kg)
