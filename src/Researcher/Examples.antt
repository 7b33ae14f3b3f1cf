-- ===== src/Researcher/Examples.antt =====
-- Runs of the search terms.
use langgraph_agents.Base.{
  ◌≡◌, refl, ◌≤◌, [], ◌∷◌, All, length, false, none, Text, text, text_eq, lower,
}
use langgraph_agents.Researcher.{find_tokens, rstrip_dashes, distinct_terms, extract_search_terms}
use langgraph_agents.Researcher.Terms.{IsTerm, AreDistinct, Covers, extract_search_terms-IsTerm}

abbrev question : Text
question = text "Where did the Plex-server backups-- go? plex-server, 9abcd _bcde a-b- x1_y"

tokens_test :
    find_tokens false none question
    ≡ text "Where" ∷ text "Plex-server" ∷ text "backups" ∷ text "plex-server" ∷ text "x1_y" ∷ []
unfolding find_tokens rstrip_dashes
tokens_test = refl

terms_test : extract_search_terms question ≡ text "Plex-server" ∷ text "backups" ∷ text "x1_y" ∷ []
unfolding extract_search_terms find_tokens distinct_terms rstrip_dashes text_eq lower
terms_test = refl

extract_search_terms-IsTerm_example :
    (length (extract_search_terms question) ≤ 6)
    × (All IsTerm (extract_search_terms question)
        × (AreDistinct (extract_search_terms question)
            × Covers (extract_search_terms question) (find_tokens false none question)))
extract_search_terms-IsTerm_example = extract_search_terms-IsTerm question
