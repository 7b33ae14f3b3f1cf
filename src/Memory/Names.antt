-- ===== src/Memory/Names.antt =====
-- The names of entities.
use langgraph_agents.Base.{
  ◌≡◌, refl, sym, ap, ◌∙◌, true, List, [], ◌∷◌, ◌++◌, drop, Text, text_eq, split, join, free_of,
  AllFree, split-join, starts_with,
}
use mathlib.Core.List.{append_assoc}
use langgraph_agents.Memory.{
  slash, root_slash, entity_name, entity_namespace, ns_from_entity_namespace,
}

-- The parts of a namespace are not empty and contain no slash.
abbrev pub IsPlain : List Text → Type 0
IsPlain [] = Unit
IsPlain ([] ∷ ns) = ⊥
IsPlain ((c ∷ p) ∷ ns) = (free_of slash (c ∷ p) ≡ true) × IsPlain ns

abbrev pub snoc : List Text → Text → List Text
snoc [] k = k ∷ []
snoc (p ∷ ps) k = p ∷ snoc ps k

snoc-AllFree :
    (ns : List Text) (k : Text) → IsPlain ns → free_of slash k ≡ true → AllFree slash (snoc ns k)
snoc-AllFree [] k h f = (f, tt)
snoc-AllFree ([] ∷ ns) k h f = elim h [ ]
snoc-AllFree ((c ∷ p) ∷ ns) k h f = (h.0, snoc-AllFree ns k h.1 f)

IsPlain-AllFree : (ns : List Text) → IsPlain ns → AllFree slash ns
IsPlain-AllFree [] h = tt
IsPlain-AllFree ([] ∷ ns) h = elim h [ ]
IsPlain-AllFree ((c ∷ p) ∷ ns) h = (h.0, IsPlain-AllFree ns h.1)

-- A namespace is read back from the column that it is stored in.
pub ns_from-entity_namespace :
    (ns : List Text) → IsPlain ns → ns_from_entity_namespace (entity_namespace ns) ≡ ns
unfolding ns_from_entity_namespace entity_namespace text_eq starts_with
ns_from-entity_namespace [] h = refl
ns_from-entity_namespace ([] ∷ ns) h = elim h [ ]
ns_from-entity_namespace ((c ∷ p) ∷ []) h = split-join slash (c ∷ p) [] (h.0, tt)
ns_from-entity_namespace ((c ∷ p) ∷ q ∷ ns) h =
    split-join slash (c ∷ p) (q ∷ ns) (IsPlain-AllFree ((c ∷ p) ∷ q ∷ ns) h)

pub join-snoc :
    (p : Text) (ps : List Text) (k : Text)
    → join slash (snoc (p ∷ ps) k) ≡ join slash (p ∷ ps) ++ slash ∷ k
join-snoc p [] k = refl
join-snoc p (q ∷ ps) k =
    ap (λ (t : Text). p ++ slash ∷ t) (join-snoc q ps k)
    ∙ sym (append_assoc p (slash ∷ join slash (q ∷ ps)) (slash ∷ k))

pub name_parts :
    (ns : List Text) (k : Text)
    → IsPlain ns
    → entity_name ns k ≡ root_slash ++ join slash (snoc ns k)
unfolding entity_name
name_parts [] k h = refl
name_parts ([] ∷ ns) k h = elim h [ ]
name_parts ((c ∷ p) ∷ []) k h = refl
name_parts ((c ∷ p) ∷ q ∷ ns) k h =
    ap (λ (t : Text). root_slash ++ t) (sym (join-snoc (c ∷ p) (q ∷ ns) k))

-- What `split` reads back of a name.
abbrev parts_of : Text → List Text
parts_of name = split slash (drop 10 name)

split-snoc :
    (ns : List Text) (k : Text)
    → AllFree slash (snoc ns k)
    → split slash (join slash (snoc ns k)) ≡ snoc ns k
split-snoc [] k h = split-join slash k [] h
split-snoc (p ∷ ns) k h = split-join slash p (snoc ns k) h

parts_of-entity_name :
    (ns : List Text) (k : Text)
    → IsPlain ns
    → free_of slash k ≡ true
    → parts_of (entity_name ns k) ≡ snoc ns k
parts_of-entity_name ns k h f =
    ap parts_of (name_parts ns k h) ∙ split-snoc ns k (snoc-AllFree ns k h f)

init : List Text → List Text
init [] = []
init (p ∷ []) = []
init (p ∷ q ∷ ps) = p ∷ init (q ∷ ps)

last : List Text → Text
last [] = []
last (p ∷ []) = p
last (p ∷ q ∷ ps) = last (q ∷ ps)

init-snoc : (ns : List Text) (k : Text) → init (snoc ns k) ≡ ns
unfolding init
init-snoc [] k = refl
init-snoc (p ∷ []) k = refl
init-snoc (p ∷ q ∷ ns) k = ap (◌∷◌ p) (init-snoc (q ∷ ns) k)

last-snoc : (ns : List Text) (k : Text) → last (snoc ns k) ≡ k
unfolding last
last-snoc [] k = refl
last-snoc (p ∷ []) k = refl
last-snoc (p ∷ q ∷ ns) k = last-snoc (q ∷ ns) k

-- An entity has one name for each item, among the plain ones.
pub entity_name_injective :
    (ns ms : List Text) (k j : Text)
    → IsPlain ns
    → IsPlain ms
    → free_of slash k ≡ true
    → free_of slash j ≡ true
    → entity_name ns k ≡ entity_name ms j
    → (ns ≡ ms) × (k ≡ j)
entity_name_injective ns ms k j h g f e same =
    let parts : snoc ns k ≡ snoc ms j =
      sym (parts_of-entity_name ns k h f) ∙ ap parts_of same ∙ parts_of-entity_name ms j g e in
    (
      sym (init-snoc ns k) ∙ ap init parts ∙ init-snoc ms j,
      sym (last-snoc ns k) ∙ ap last parts ∙ last-snoc ms j,
    )
