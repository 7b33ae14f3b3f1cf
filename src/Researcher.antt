-- ===== src/Researcher.antt =====
-- src/agents/nodes/researcher.py (the search terms of a question). Words are those of ASCII.
pub mod Terms
pub mod Examples
use langgraph_agents.Base.{
  ℕ, zero, suc, ◌+◌, ◌-◌, Bool, true, false, Option, none, some, List, [], ◌∷◌, ◌++◌, ◌&&◌, ◌||◌,
  not, leb, ◌==◌, any, length, take, if◌then◌else◌, Text, text, text_eq, lower, strip, join,
}

-- `[A-Za-z]`, and `[A-Za-z0-9_-]`
abbrev pub is_letter : ℕ → Bool
is_letter c = (leb b'A' c && leb c b'Z') || (leb b'a' c && leb c b'z')

abbrev pub is_digit : ℕ → Bool
is_digit c = leb b'0' c && leb c b'9'

-- `\w`
abbrev pub is_word : ℕ → Bool
is_word c = is_letter c || (is_digit c || c == b'_')

abbrev pub is_term_char : ℕ → Bool
is_term_char c = is_word c || c == b'-'

-- A run of term characters without the dashes at its end, which are no end of a word.
abbrev pub before_dashes : ℕ → Text → Text
before_dashes c [] = if c == b'-' then [] else c ∷ []
before_dashes c (d ∷ t) = c ∷ d ∷ t

unfoldable pub rstrip_dashes : Text → Text
rstrip_dashes [] = []
rstrip_dashes (c ∷ s) = before_dashes c (rstrip_dashes s)

abbrev pub with_token : Text → List Text → List Text
with_token run rest = if leb 4 (length (rstrip_dashes run)) then rstrip_dashes run ∷ rest else rest

-- `re.findall`: whether the last character is one of a word, and the run that a letter has begun.
unfoldable pub find_tokens : Bool → Option Text → Text → List Text
find_tokens word none [] = []
find_tokens word (some run) [] = with_token run []
find_tokens word none (c ∷ s) =
    let begun = find_tokens true (some (c ∷ [])) s in
    let passed = find_tokens (is_word c) none s in if not word && is_letter c then begun else passed
find_tokens word (some run) (c ∷ s) =
    let longer = find_tokens (is_word c) (some (run ++ c ∷ [])) s in
    let ended = find_tokens false none s in if is_term_char c then longer else with_token run ended

abbrev pub stopwords : List Text
stopwords =
    text "what"
    ∷ text "where"
    ∷ text "when"
    ∷ text "which"
    ∷ text "have"
    ∷ text "this"
    ∷ text "that"
    ∷ text "with"
    ∷ text "from"
    ∷ text "into"
    ∷ text "should"
    ∷ text "would"
    ∷ text "could"
    ∷ text "about"
    ∷ text "there"
    ∷ text "their"
    ∷ text "they"
    ∷ text "your"
    ∷ text "yours"
    ∷ text "mine"
    ∷ text "ours"
    ∷ text "rob"
    ∷ text "user"
    ∷ text "claude"
    ∷ text "agent"
    ∷ text "please"
    ∷ text "thank"
    ∷ text "thanks"
    ∷ text "hello"
    ∷ text "okay"
    ∷ []

abbrev pub is_among : Text → List Text → Bool
is_among t ts = any (text_eq t) ts

-- The tokens that are new and no stopwords, without regard to case.
unfoldable pub distinct_terms : (seen tokens : List Text) → List Text
distinct_terms seen [] = []
distinct_terms seen (t ∷ ts) =
    let skipped = distinct_terms seen ts in
    let kept = t ∷ distinct_terms (lower t ∷ seen) ts in
    if is_among (lower t) seen || is_among (lower t) stopwords then skipped else kept

unfoldable pub extract_search_terms : Text → List Text
extract_search_terms content = take 6 (distinct_terms [] (find_tokens false none content))
