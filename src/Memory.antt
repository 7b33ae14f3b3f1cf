-- ===== src/Memory.antt =====
-- src/agents/memory_store.py: the store of the agents' memories over the tables `kg.entities` and
-- `kg.observations`. An entity's id is its place in the table, and its name, which is unique, stands
-- for it in the observations. The JSON codec, the embedding service, the distance of vectors and
-- SQL's LIKE and ILIKE are a parameter. `Memory` has the names and the reads and writes of one item.
pub mod Names
pub mod Search
pub mod Writes
pub mod Refines
pub mod Stale
pub mod Examples
use langgraph_agents.Base.{
  ℕ, ◌+◌, Bool, true, false, Option, none, some, List, [], ◌∷◌, ◌++◌, ◌&&◌, ◌||◌, not, is_some, ltb,
  leb, if◌then◌else◌, any, drop, Text, text, text_eq, join, split, rsplit_once, starts_with, strip,
}

pub record Backend (V W : Type 0) : Type 0 where
  pub dumps : V → Text
  pub parse_value : Text → Option V
  pub field_text : V → Text → Option Text
  pub embed_request : Text → Option W
  pub distance : W → W → ℕ
  pub like : (value pattern : Text) → Bool
  pub ilike : (value pattern : Text) → Bool

pub record Entity : Type 0 where
  pub name : Text
  pub kind : Text
  pub namespace : Text
  pub created_at : ℕ
  pub updated_at : ℕ

pub record Observation (W : Type 0) : Type 0 where
  pub entity : Text
  pub content : Text
  pub embedding : Option W
  pub created_at : ℕ
  pub deleted_at : Option ℕ

pub record Kg (W : Type 0) : Type 0 where
  pub entities : List Entity
  pub observations : List (Observation W)

-- The rows of LangGraph's operations; `index=False` is `unindexed`.
pub data Index : Type 0 where
  unindexed whole : Index
  fields : List Text → Index

pub record Item (V : Type 0) : Type 0 where
  pub value : V
  pub key : Text
  pub namespace : List Text
  pub created_at : ℕ
  pub updated_at : ℕ

abbrev pub entity_type : Text
entity_type = text "langgraph-store-item"

abbrev pub namespace_root : Text
namespace_root = text "langgraph"

abbrev pub root_slash : Text
root_slash = text "langgraph/"

abbrev pub slash : ℕ
slash = b'/'

-- `if ns:` on the joined parts.
abbrev pub name_in : Text → Text → Text
name_in [] key = root_slash ++ key
name_in (c ∷ ns) key = root_slash ++ ((c ∷ ns) ++ slash ∷ key)

unfoldable pub entity_name : List Text → Text → Text
entity_name namespace key = name_in (join slash namespace) key

abbrev pub namespace_in : Text → Text
namespace_in [] = namespace_root
namespace_in (c ∷ ns) = root_slash ++ (c ∷ ns)

unfoldable pub entity_namespace : List Text → Text
entity_namespace namespace = namespace_in (join slash namespace)

unfoldable pub ns_from_entity_namespace : Text → List Text
ns_from_entity_namespace s =
    if text_eq s namespace_root
    then []
    else if starts_with root_slash s
    then split slash (drop 10 s)
    else split slash s

abbrev last_part : Text → Option (Text × Text) → Text
last_part name none = name
last_part name (some (before, after)) = after

unfoldable pub key_from_entity_name : Text → Text
key_from_entity_name name = last_part name (rsplit_once slash name)

-- `WHERE e.name = …`
unfoldable pub find_entity : Text → List Entity → Option Entity
find_entity name [] = none
find_entity name (e ∷ es) = if text_eq e.name name then some e else find_entity name es

-- `INSERT … ON CONFLICT (name) DO UPDATE SET updated_at = now()`
unfoldable pub upsert : ℕ → Text → Text → List Entity → List Entity
upsert now name ns [] =
    record { name = name; kind = entity_type; namespace = ns; created_at = now; updated_at = now }
    ∷ []
upsert now name ns (e ∷ es) =
    if text_eq e.name name then record e { updated_at = now } ∷ es else e ∷ upsert now name ns es

module _ {W : Type 0} where
  abbrev pub is_live : Observation W → Bool
  is_live o = not (is_some o.deleted_at)

  abbrev pub is_of : Text → Observation W → Bool
  is_of name o = text_eq o.entity name && is_live o

  abbrev pub newer : Observation W → Option (Observation W) → Observation W
  newer o none = o
  newer o (some p) = if ltb o.created_at p.created_at then p else o

  -- `ORDER BY o.created_at DESC LIMIT 1`, over the rows that a condition holds of.
  unfoldable pub newest : (Observation W → Bool) → List (Observation W) → Option (Observation W)
  newest p [] = none
  newest p (o ∷ os) = let rest = newest p os in if p o then some (newer o rest) else rest

  -- The soft delete of the live observations.
  unfoldable pub delete_live : ℕ → Text → List (Observation W) → List (Observation W)
  delete_live now name [] = []
  delete_live now name (o ∷ os) =
      (if is_of name o then record o { deleted_at = some now } else o) ∷ delete_live now name os

module _ {V W : Type 0} (b : Backend V W) where
  abbrev pub to_item : List Text → Text → Entity → Option V → Option (Item V)
  to_item ns key e none = none
  to_item ns key e (some v) = some (record {
    value = v;
    key = key;
    namespace = ns;
    created_at = e.created_at;
    updated_at = e.updated_at;
  })

  abbrev pub read_row : List Text → Text → Entity → Option (Observation W) → Option (Item V)
  read_row ns key e none = none
  read_row ns key e (some o) = to_item ns key e (b.parse_value o.content)

  abbrev pub read_entity :
      List Text → Text → Text → List (Observation W) → Option Entity → Option (Item V)
  read_entity ns key name os none = none
  read_entity ns key name os (some e) = read_row ns key e (newest (is_of name) os)

  unfoldable pub aget : List Text → Text → Kg W → Option (Item V)
  aget ns key kg =
      let name = entity_name ns key in
      read_entity ns key name kg.observations (find_entity name kg.entities)

  -- `" ".join(str(value.get(path)))` over the fields that are there.
  unfoldable pub field_texts : V → List Text → List Text
  field_texts v [] = []
  field_texts v (path ∷ paths) =
      let rest = field_texts v paths in
      elim (b.field_text v path) [ none ↦ rest | some seg ↦ seg ∷ rest ]

  unfoldable pub embedding_text : V → Index → Text
  embedding_text v unindexed = []
  embedding_text v (fields paths) = join b' ' (field_texts v paths)
  embedding_text v whole = b.dumps v

  -- Best effort: nothing for a blank text, and nothing on a failure of the service.
  unfoldable pub embed : Text → Option W
  embed content = if text_eq (strip content) [] then none else b.embed_request content

  unfoldable pub aput : ℕ → List Text → Text → Option V → Index → Kg W → Kg W
  aput now ns key none index kg = record kg {
    observations = delete_live now (entity_name ns key) kg.observations;
  }
  aput now ns key (some v) index kg = record {
    entities = upsert now (entity_name ns key) (entity_namespace ns) kg.entities;
    observations =
        kg.observations
        ++ record {
          entity = entity_name ns key;
          content = b.dumps v;
          embedding = embed (embedding_text v index);
          created_at = now;
          deleted_at = none;
        }
          ∷ [];
  }
