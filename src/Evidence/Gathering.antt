-- ===== src/Evidence/Gathering.antt =====
-- No observation is lost when the gathering of evidence is cut short.
use langgraph_agents.Base.{
  ℕ, ◌≡◌, refl, sym, ap, ◌∙◌, true, Option, List, [], ◌∷◌, ◌++◌, Text, text, text_or, strip, join,
}
use langgraph_agents.Evidence.{
  LoopMessage, human_message, ai_message, tool_message, recursion_error, observed, salvage,
  final_summary, last_message, last_state, or_salvaged, extract_evidence, gather_evidence,
}

-- The line of one observation.
abbrev pub line_of : Option Text → Text → Text
line_of name observation = text "- " ++ (text_or name (text "tool") ++ (text ": " ++ observation))

assoc : (a b c : Text) → (a ++ b) ++ c ≡ a ++ (b ++ c)
assoc [] b c = refl
assoc (x ∷ a) b c = ap (◌∷◌ x) (assoc a b c)

observed-append :
    (name : Option Text) (o : Text) (ps bs : List Text)
    → observed name o (ps ++ bs) ≡ observed name o ps ++ bs
observed-append name [] ps bs = refl
observed-append name (c ∷ o) ps bs = refl

salvage-append : (xs ys : List LoopMessage) → salvage (xs ++ ys) ≡ salvage xs ++ salvage ys
unfolding salvage
salvage-append [] ys = refl
salvage-append (human_message c ∷ xs) ys = salvage-append xs ys
salvage-append (ai_message c t ∷ xs) ys = salvage-append xs ys
salvage-append (tool_message name c ∷ xs) ys =
    ap (observed name (strip c)) (salvage-append xs ys)
    ∙ observed-append name (strip c) (salvage xs) (salvage ys)

abbrev Contains : Text → Text → Type 0
Contains whole part = (before : Text) × (after : Text) × (whole ≡ before ++ (part ++ after))

append-nil : (a : Text) → a ++ [] ≡ a
append-nil [] = refl
append-nil (x ∷ a) = ap (◌∷◌ x) (append-nil a)

join-head : (c : ℕ) (l : Text) (bs : List Text) → Contains (join c (l ∷ bs)) l
join-head c l [] = ([], [], sym (append-nil l))
join-head c l (b ∷ bs) = ([], c ∷ join c (b ∷ bs), refl)

join-later :
    (c : ℕ) (a l : Text) (ls : List Text) → Contains (join c ls) l → Contains (join c (a ∷ ls)) l
join-later c a l [] (before, after, e) = (
  a ++ before,
  after,
  sym (append-nil a) ∙ ap (λ (t : Text). a ++ t) e ∙ sym (assoc a before (l ++ after)),
)
join-later c a l (b ∷ bs) (before, after, e) = (
  a ++ c ∷ before,
  after,
  ap (λ (t : Text). a ++ c ∷ t) e ∙ sym (assoc a (c ∷ before) (l ++ after)),
)

join-Contains : (c : ℕ) (l : Text) (ps bs : List Text) → Contains (join c (ps ++ l ∷ bs)) l
join-Contains c l [] bs = join-head c l bs
join-Contains c l (a ∷ ps) bs = join-later c a l (ps ++ l ∷ bs) (join-Contains c l ps bs)

-- When the loop of the agent runs into its recursion limit before it has written a summary, the
-- evidence still contains the line of each tool's observation that is not blank.
pub gather_evidence-keeps :
    (states : List (List LoopMessage)) (xs ys : List LoopMessage) (name : Option Text)
    (content : Text) (c : ℕ) (o : Text)
    → last_state states ≡ xs ++ tool_message name content ∷ ys
    → strip content ≡ c ∷ o
    → final_summary (last_message (last_state states)) ≡ []
    → (before : Text) × (after : Text) × (gather_evidence true
          (record { states = states; end = recursion_error })
        ≡ before ++ (line_of name (c ∷ o) ++ after))
unfolding gather_evidence extract_evidence salvage
gather_evidence-keeps states xs ys name content c o last_is observation no_summary =
    let lines : salvage (last_state states) ≡ salvage xs ++ line_of name (c ∷ o) ∷ salvage ys =
      ap salvage last_is
      ∙ salvage-append xs (tool_message name content ∷ ys)
      ∙ ap (λ (t : Text). salvage xs ++ observed name t (salvage ys)) observation in
    let (before, after, e) = join-Contains b'\n' (line_of name (c ∷ o)) (salvage xs) (salvage ys) in
    (
      before,
      after,
      ap (λ (t : Text). or_salvaged t (last_state states)) no_summary ∙ ap (join b'\n') lines ∙ e,
    )
