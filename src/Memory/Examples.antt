-- ===== src/Memory/Examples.antt =====
-- The memory store on texts as values, with an embedding service that is down.
use langgraph_agents.Base.{
  ℕ, ◌≡◌, refl, true, false, none, some, List, [], ◌∷◌, ◌++◌, map, Text, text, contains_text,
  starts_with, arith, drop, strip, lstrip, rstrip, text_eq,
}
use langgraph_agents.Memory.{Backend, Index, embed}
use langgraph_agents.Memory.Search.{Op, got, searched, asearch, abatch, pattern_of}
use langgraph_agents.Memory.Refines.{AllAnswer, AreProper, abatch-Refines, empty_kg}
use langgraph_agents.Memory.Stale.{overwritten, search_for, asearch-stale}

abbrev backend : Backend Text Text
backend = record {
  dumps = λ v. v;
  parse_value = λ t. some t;
  field_text = λ v path. none;
  embed_request = λ t. none;
  distance = λ v w. 0;
  like = λ value pattern. starts_with pattern value;
  ilike = λ value pattern. contains_text (drop 1 pattern) (value ++ text "%");
}

abbrev alice : List Text
alice = text "agent" ∷ text "alice" ∷ []

abbrev batch : List (ℕ × Op Text)
batch =
    (1, Op.put alice (text "mood") (some (text "good")) Index.unindexed)
    ∷ (4, Op.put (text "agent" ∷ []) (text "mood") (some (text "bad")) Index.unindexed)
    ∷ (5, searched (search_for alice (text "good")))
    ∷ (7, got alice (text "mood"))
    ∷ (8, Op.put alice (text "mood") none Index.unindexed)
    ∷ (9, got alice (text "mood"))
    ∷ []

batch-AreProper : AreProper backend 0 batch
batch-AreProper = ground arith

abatch-Refines_example : AllAnswer [] batch (abatch backend batch (empty_kg backend)).0
abatch-Refines_example = abatch-Refines backend batch batch-AreProper

offline : embed backend (text "good") ≡ none
unfolding embed strip lstrip rstrip text_eq
offline = refl

good_hit : backend.ilike (text "good") (pattern_of (some (text "good"))) ≡ true
unfolding contains_text starts_with
good_hit = refl

bad_miss : backend.ilike (text "bad") (pattern_of (some (text "good"))) ≡ false
unfolding contains_text starts_with
bad_miss = refl

asearch-stale_example :
    map
      (λ i. i.value)
      (asearch backend
        (search_for alice (text "good"))
        (overwritten backend 1 2 alice (text "mood") (text "good") (text "bad")))
    ≡ text "good" ∷ []
asearch-stale_example =
    asearch-stale backend 1 2 alice (text "mood") (text "good") (text "bad") b'g' (text "ood") refl
      offline good_hit bad_miss
