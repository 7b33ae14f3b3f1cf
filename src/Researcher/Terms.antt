-- ===== src/Researcher/Terms.antt =====
-- The search terms of a question.
use langgraph_agents.Base.{
  ℕ, zero, suc, ◌≤◌, ◌≡◌, ◌⊎◌, refl, ap, inl, inr, Bool, true, false, Bool-cases, Option, none,
  some, List, [], ◌∷◌, ◌++◌, ◌&&◌, ◌||◌, not, leb, length, take, any, All, Text, text_eq,
  text_eq_refl, lower, arith,
}
use langgraph_agents.Researcher.{
  find_tokens, with_token, rstrip_dashes, stopwords, is_among, distinct_terms, extract_search_terms,
  is_word, is_letter, is_term_char,
}

abbrev IsLong : Text → Type 0
IsLong t = 4 ≤ length t

-- Long enough, and no stopword.
abbrev pub IsTerm : Text → Type 0
IsTerm t = (4 ≤ length t) × (is_among (lower t) stopwords ≡ false)

-- No two that differ at most in case.
abbrev pub AreDistinct : List Text → Type 0
AreDistinct [] = Unit
AreDistinct (t ∷ ts) = All (λ u. text_eq (lower u) (lower t) ≡ false) ts × AreDistinct ts

with_token-IsLong :
    (run : Text) (rest : List Text) → All IsLong rest → All IsLong (with_token run rest)
with_token-IsLong run rest h = elim (Bool-cases (leb 4 (length (rstrip_dashes run)))) [
  | inl long ↦ rw long (ground arith, h)
  | inr short ↦ rw short h
]

find_tokens-IsLong :
    (word : Bool) (run : Option Text) (s : Text) → All IsLong (find_tokens word run s)
unfolding find_tokens
find_tokens-IsLong word none [] = tt
find_tokens-IsLong word (some run) [] = with_token-IsLong run [] tt
find_tokens-IsLong word none (c ∷ s) = elim (Bool-cases (not word && is_letter c)) [
  | inl begins ↦ rw begins (find_tokens-IsLong true (some (c ∷ [])) s)
  | inr passes ↦ rw passes (find_tokens-IsLong (is_word c) none s)
]
find_tokens-IsLong word (some run) (c ∷ s) = elim (Bool-cases (is_term_char c)) [
  | inl longer ↦ rw longer (find_tokens-IsLong (is_word c) (some (run ++ c ∷ [])) s)
  | inr ended ↦ rw ended (with_token-IsLong run _ (find_tokens-IsLong false none s))
]

-- What holds of the later terms: they are terms, distinct, and none was seen.
abbrev AreFresh : List Text → List Text → Type 0
AreFresh seen ts = All IsTerm ts × AreDistinct ts × All (λ u. is_among (lower u) seen ≡ false) ts

or_false : (a b : Bool) → a || b ≡ false → (a ≡ false) × (b ≡ false)
or_false false false h = (refl, refl)
or_false false true h = absurd (ground (arith, h))
or_false true b h = absurd (ground (arith, h))

weaken :
    (s : Text) (seen ts : List Text)
    → All (λ u. is_among (lower u) (s ∷ seen) ≡ false) ts
    → All (λ u. text_eq (lower u) s ≡ false) ts × All (λ u. is_among (lower u) seen ≡ false) ts
weaken s seen [] h = (tt, tt)
weaken s seen (u ∷ ts) h =
    let (differ, unseen) = weaken s seen ts h.1 in
    ((ground (arith, h.0), differ), (ground (arith, h.0), unseen))

distinct_terms-AreFresh :
    (seen ts : List Text) → All IsLong ts → AreFresh seen (distinct_terms seen ts)
unfolding distinct_terms
distinct_terms-AreFresh seen [] h = (tt, tt, tt)
distinct_terms-AreFresh seen (t ∷ ts) h =
    elim (Bool-cases (is_among (lower t) seen || is_among (lower t) stopwords)) [
      | inl skipped ↦ rw skipped (distinct_terms-AreFresh seen ts h.1)
      | inr kept ↦
          let (terms, distinct, unseen) = distinct_terms-AreFresh (lower t ∷ seen) ts h.1 in
          let (differ, older) = weaken (lower t) seen _ unseen in
          let (new, word) = or_false (is_among (lower t) seen) _ kept in
          rw kept (((h.0, word), terms), (differ, distinct), (new, older))
    ]

length-take : {A : Type 0} → (n : ℕ) (ts : List A) → length (take n ts) ≤ n
length-take zero ts = omega arith
length-take (suc n) [] = omega arith
length-take (suc n) (t ∷ ts) = let h = length-take n ts in omega arith

All-take : {A : Type 0} (P : A → Type 0) (n : ℕ) (ts : List A) → All P ts → All P (take n ts)
All-take P zero ts h = tt
All-take P (suc n) [] h = tt
All-take P (suc n) (t ∷ ts) h = (h.0, All-take P n ts h.1)

AreDistinct-take : (n : ℕ) (ts : List Text) → AreDistinct ts → AreDistinct (take n ts)
AreDistinct-take zero ts h = tt
AreDistinct-take (suc n) [] h = tt
AreDistinct-take (suc n) (t ∷ ts) h = (All-take _ n ts h.0, AreDistinct-take n ts h.1)

-- A bounded list is full, or nothing was left out.
full_or_all : {A : Type 0} → (n : ℕ) (ts : List A) → (length (take n ts) ≡ n) ⊎ (take n ts ≡ ts)
full_or_all zero ts = inl refl
full_or_all (suc n) [] = inr refl
full_or_all (suc n) (t ∷ ts) = elim (full_or_all n ts) [
  | inl full ↦ inl (ap suc full)
  | inr whole ↦ inr (ap (◌∷◌ t) whole)
]

-- A token that is a stopword, or one of the terms but for case.
abbrev pub is_covered : List Text → Text → Bool
is_covered terms u = is_among (lower u) stopwords || any (λ v. text_eq (lower u) (lower v)) terms

unfoldable accounts : (seen terms : List Text) (u : Text) → Bool
accounts seen terms u = is_among (lower u) seen || is_covered terms u

or_seen : (a b c : Bool) → a || b ≡ true → a || (b || c) ≡ true
or_seen true b c h = refl
or_seen false true c h = refl
or_seen false false c h = absurd (ground (arith, h))

or_own : (a b c d : Bool) → c ≡ true → a || (b || (c || d)) ≡ true
or_own true b c d h = refl
or_own false true c d h = refl
or_own false false c d h = rw h refl

or_moved : (e a b d : Bool) → (e || a) || (b || d) ≡ true → a || (b || (e || d)) ≡ true
or_moved e true b d h = refl
or_moved e false true d h = refl
or_moved true false false d h = refl
or_moved false false false d h = h

skipped_term :
    (seen : List Text) (t : Text) (ts : List Text)
    → is_among (lower t) seen || is_among (lower t) stopwords ≡ true
    → distinct_terms seen (t ∷ ts) ≡ distinct_terms seen ts
unfolding distinct_terms
skipped_term seen t ts h = rw h refl

kept_term :
    (seen : List Text) (t : Text) (ts : List Text)
    → is_among (lower t) seen || is_among (lower t) stopwords ≡ false
    → distinct_terms seen (t ∷ ts) ≡ t ∷ distinct_terms (lower t ∷ seen) ts
unfolding distinct_terms
kept_term seen t ts h = rw h refl

later :
    (seen terms : List Text) (t : Text) (ts : List Text)
    → All (λ u. accounts (lower t ∷ seen) terms u ≡ true) ts
    → All (λ u. accounts seen (t ∷ terms) u ≡ true) ts
unfolding accounts
later seen terms t [] h = tt
later seen terms t (u ∷ ts) h =
    (or_moved (text_eq (lower u) (lower t)) _ _ _ h.0, later seen terms t ts h.1)

skipped-accounts :
    (seen terms : List Text) (t : Text)
    → is_among (lower t) seen || is_among (lower t) stopwords ≡ true
    → accounts seen terms t ≡ true
unfolding accounts
skipped-accounts seen terms t h = or_seen (is_among (lower t) seen) _ _ h

kept-accounts : (seen terms : List Text) (t : Text) → accounts seen (t ∷ terms) t ≡ true
unfolding accounts
kept-accounts seen terms t = or_own (is_among (lower t) seen) _ _ _ (text_eq_refl (lower t))

with_terms :
    (seen terms others ts : List Text)
    → terms ≡ others
    → All (λ u. accounts seen others u ≡ true) ts
    → All (λ u. accounts seen terms u ≡ true) ts
with_terms seen terms others ts same h = rw same h

distinct_terms-accounts :
    (seen ts : List Text) → All (λ u. accounts seen (distinct_terms seen ts) u ≡ true) ts
distinct_terms-accounts seen [] = tt
distinct_terms-accounts seen (t ∷ ts) =
    elim (Bool-cases (is_among (lower t) seen || is_among (lower t) stopwords)) [
      | inl skipped ↦
          with_terms seen _ _ (t ∷ ts) (skipped_term seen t ts skipped)
            (skipped-accounts seen _ t skipped, distinct_terms-accounts seen ts)
      | inr kept ↦
          with_terms seen _ _ (t ∷ ts) (kept_term seen t ts kept) (
            kept-accounts seen _ t,
            later seen _ t ts (distinct_terms-accounts (lower t ∷ seen) ts),
          )
    ]

distinct_terms-is_covered :
    (ts : List Text) → All (λ u. is_covered (distinct_terms [] ts) u ≡ true) ts
unfolding accounts
distinct_terms-is_covered ts = distinct_terms-accounts [] ts

-- All six places are taken, or no token was left out.
abbrev pub Covers : (terms tokens : List Text) → Type 0
Covers terms tokens = (length terms ≡ 6) ⊎ All (λ u. is_covered terms u ≡ true) tokens

-- At most six search terms are taken from a question; each has at least four characters and is no
-- stopword, no two differ at most in case, and there are six of them unless every token of the
-- question is a stopword or one of the terms but for case.
pub extract_search_terms-IsTerm :
    (content : Text)
    → (length (extract_search_terms content) ≤ 6)
      × (All IsTerm (extract_search_terms content)
          × (AreDistinct (extract_search_terms content)
              × Covers (extract_search_terms content) (find_tokens false none content)))
unfolding extract_search_terms
extract_search_terms-IsTerm content =
    let tokens = find_tokens false none content in
    let fresh = distinct_terms-AreFresh [] tokens (find_tokens-IsLong false none content) in
    let covered =
      elim (full_or_all 6 (distinct_terms [] tokens))
        as (λ _. Covers (take 6 (distinct_terms [] tokens)) tokens) [
          | inl full ↦ inl full
          | inr whole ↦ inr (rw whole (distinct_terms-is_covered tokens))
        ] in
    (length-take 6 _, (All-take _ 6 _ fresh.0, (AreDistinct-take 6 _ fresh.1, covered)))
