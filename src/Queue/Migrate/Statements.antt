-- ===== src/Queue/Migrate/Statements.antt =====
-- A script that is printed from its statements is split into them again.
use langgraph_agents.Base.{
  ◌≡◌, refl, sym, ap, ◌∙◌, true, false, List, [], ◌∷◌, ◌++◌, All, Text, is_space, is_line_break,
  strip, lstrip, rstrip, join, not, ◌&&◌, ◌==◌, ℕ, Bool, Bool-cases, inl, inr, arith,
}
use mathlib.Core.List.{append-nil, append_assoc}
use langgraph_agents.Queue.Migrate.{
  drop_last_empty, before_break, split_breaks, splitlines, ends_statement, rstrip_semicolons,
  statement_of, appended, is_comment, split_lines, split_statements,
}

abbrev pub is_one_line : Text → Bool
is_one_line [] = true
is_one_line (c ∷ s) = not (is_line_break c) && is_one_line s

-- A line of comment, or a statement: its lines, of which a semicolon follows the last.
pub data ScriptItem : Type 0 where
  comment_line : (line : Text) → ScriptItem
  statement : (lines : List Text) → (last : Text) → ScriptItem

abbrev pub semicolon : Text
semicolon = b';' ∷ []

abbrev pub item_lines : ScriptItem → List Text
item_lines (comment_line l) = l ∷ []
item_lines (statement ls l) = ls ++ (l ++ semicolon) ∷ []

abbrev pub script_lines : List ScriptItem → List Text
script_lines [] = []
script_lines (i ∷ is) = item_lines i ++ script_lines is

-- Each line, with its line break.
abbrev pub unlines : List Text → Text
unlines [] = []
unlines (l ∷ ls) = l ++ b'\n' ∷ unlines ls

abbrev pub body : List Text → Text → Text
body ls l = join b'\n' (ls ++ l ∷ [])

abbrev pub statements_of : List ScriptItem → List Text
statements_of [] = []
statements_of (comment_line l ∷ is) = statements_of is
statements_of (statement ls l ∷ is) = body ls l ∷ statements_of is

-- A line inside a statement: no comment, no blank and no semicolon at its end.
pub record IsLine (l : Text) : Type 0 where
  pub one_line : is_one_line l ≡ true
  pub trimmed : rstrip l ≡ l
  pub no_comment : is_comment l ≡ false
  pub open_ended : ends_statement l ≡ false

-- A body that starts with no blank, and ends with neither a blank nor a semicolon.
abbrev pub IsBody : Text → Type 0
IsBody [] = ⊥
IsBody (c ∷ t) =
    (is_space c ≡ false) × (rstrip (c ∷ t) ≡ c ∷ t) × (rstrip_semicolons (c ∷ t) ≡ c ∷ t)

abbrev pub IsItem : ScriptItem → Type 0
IsItem (comment_line l) = (is_one_line l ≡ true) × (is_comment (rstrip l) ≡ true)
IsItem (statement ls l) =
    All IsLine ls
    × (is_one_line l ≡ true)
    × (is_comment (l ++ semicolon) ≡ false)
    × IsBody (body ls l)

rstrip-append : (s : Text) → rstrip (s ++ semicolon) ≡ s ++ semicolon
unfolding rstrip
rstrip-append [] = refl
rstrip-append (d ∷ []) = refl
rstrip-append (d ∷ e ∷ s) = rw (rstrip-append (e ∷ s)) refl

rstrip_semicolons-append : (s : Text) → rstrip_semicolons (s ++ semicolon) ≡ rstrip_semicolons s
unfolding rstrip_semicolons
rstrip_semicolons-append [] = refl
rstrip_semicolons-append (d ∷ s) = rw (rstrip_semicolons-append s) refl

ends_statement-append : (s : Text) → ends_statement (s ++ semicolon) ≡ true
unfolding ends_statement
ends_statement-append [] = refl
ends_statement-append (d ∷ []) = refl
ends_statement-append (d ∷ e ∷ s) = ends_statement-append (e ∷ s)

strip-IsBody : (t : Text) → IsBody t → strip t ≡ t
unfolding strip lstrip
strip-IsBody [] h = elim h [ ]
strip-IsBody (c ∷ t) h = rw (h.0) h.1

strip-closed : (t : Text) → IsBody t → strip (t ++ semicolon) ≡ t ++ semicolon
unfolding strip lstrip
strip-closed [] h = elim h [ ]
strip-closed (c ∷ t) h = rw (h.0) (rstrip-append (c ∷ t))

unclosed : (t : Text) → IsBody t → rstrip_semicolons t ≡ t
unclosed [] h = elim h [ ]
unclosed (c ∷ t) h = h.2

join-append :
    (ls : List Text) (l : Text) → join b'\n' (ls ++ (l ++ semicolon) ∷ []) ≡ body ls l ++ semicolon
join-append [] l = refl
join-append (m ∷ []) l = sym (append_assoc m (b'\n' ∷ l) semicolon)
join-append (m ∷ n ∷ ls) l =
    ap (λ (t : Text). m ++ b'\n' ∷ t) (join-append (n ∷ ls) l)
    ∙ sym (append_assoc m (b'\n' ∷ body (n ∷ ls) l) semicolon)

statement_of-closed :
    (ls : List Text) (l : Text)
    → IsBody (body ls l)
    → statement_of (ls ++ (l ++ semicolon) ∷ []) ≡ body ls l
unfolding statement_of
statement_of-closed ls l h =
    ap (λ (t : Text). strip (rstrip_semicolons (strip t))) (join-append ls l)
    ∙ ap (λ (t : Text). strip (rstrip_semicolons t)) (strip-closed (body ls l) h)
    ∙ ap strip (rstrip_semicolons-append (body ls l) ∙ unclosed (body ls l) h)
    ∙ strip-IsBody (body ls l) h

appended-IsBody : (st : List Text) (t : Text) → IsBody t → appended st t ≡ st ++ t ∷ []
appended-IsBody st [] h = elim h [ ]
appended-IsBody st (c ∷ t) h = refl

split_lines-kept :
    (ls rest buf st : List Text)
    → All IsLine ls
    → split_lines (ls ++ rest) buf st ≡ split_lines rest (buf ++ ls) st
unfolding split_lines
split_lines-kept [] rest buf st h = ap (λ b. split_lines rest b st) (sym (append-nil buf))
split_lines-kept (l ∷ ls) rest buf st h =
    rw (h.0.trimmed, h.0.no_comment, h.0.open_ended)
      (split_lines-kept ls rest (buf ++ l ∷ []) st h.1
        ∙ ap (λ b. split_lines rest b st) (append_assoc buf (l ∷ []) ls))

split_lines-closed :
    (l : Text) (rest ls st : List Text)
    → is_comment (l ++ semicolon) ≡ false
    → IsBody (body ls l)
    → split_lines ((l ++ semicolon) ∷ rest) ls st ≡ split_lines rest [] (st ++ body ls l ∷ [])
unfolding split_lines
split_lines-closed l rest ls st no_comment h =
    rw (rstrip-append l, no_comment, ends_statement-append l)
      (ap (split_lines rest [])
        (ap (appended st) (statement_of-closed ls l h) ∙ appended-IsBody st (body ls l) h))

split_lines-comment :
    (l : Text) (rest st : List Text)
    → is_comment (rstrip l) ≡ true
    → split_lines (l ∷ rest) [] st ≡ split_lines rest [] st
unfolding split_lines
split_lines-comment l rest st h = rw h refl

split_lines-script :
    (is : List ScriptItem) (st : List Text)
    → All IsItem is
    → split_lines (script_lines is) [] st ≡ st ++ statements_of is
unfolding split_lines statement_of strip rstrip_semicolons
split_lines-script [] st h = sym (append-nil st)
split_lines-script (comment_line l ∷ is) st h =
    split_lines-comment l (script_lines is) st h.0.1 ∙ split_lines-script is st h.1
split_lines-script (statement ls l ∷ is) st h =
    ap (λ ts. split_lines ts [] st) (append_assoc ls ((l ++ semicolon) ∷ []) (script_lines is))
    ∙ split_lines-kept ls ((l ++ semicolon) ∷ script_lines is) [] st h.0.0
    ∙ split_lines-closed l (script_lines is) ls st h.0.2 h.0.3
    ∙ split_lines-script is (st ++ body ls l ∷ []) h.1
    ∙ append_assoc st (body ls l ∷ []) (statements_of is)

-- The lines of a printed script.
drop_last_empty-append : (ls : List Text) → drop_last_empty (ls ++ [] ∷ []) ≡ ls
drop_last_empty-append [] = refl
drop_last_empty-append (l ∷ []) = refl
drop_last_empty-append (l ∷ m ∷ ls) = ap (◌∷◌ l) (drop_last_empty-append (m ∷ ls))

abbrev OneLine : Text → Type 0
OneLine l = is_one_line l ≡ true

split_breaks-cons :
    (after_cr : Bool) (s : Text)
    → (l : Text) × (ls : List Text) × (split_breaks after_cr s ≡ l ∷ ls)
unfolding split_breaks
split_breaks-cons after_cr [] = ([], [], refl)
split_breaks-cons after_cr (c ∷ s) =
    let (l, ls, e) = split_breaks-cons (c == b'\r') s in
    elim (Bool-cases (after_cr && c == b'\n')) [
      | inl skipped ↦ (l, ls, rw skipped e)
      | inr read ↦ elim (Bool-cases (is_line_break c)) [
        | inl breaks ↦ ([], l ∷ ls, rw (read, e) (rw breaks refl))
        | inr stays ↦ (c ∷ l, ls, rw (read, e) (rw stays refl))
      ]
    ]

-- No character but a line break is a carriage return.
no_cr : (c : ℕ) → is_line_break c ≡ false → (c == b'\r') ≡ false
no_cr c h = ground (arith, h)

split_breaks-append :
    (l s : Text)
    → is_one_line l ≡ true
    → split_breaks false (l ++ b'\n' ∷ s) ≡ l ∷ split_breaks false s
unfolding split_breaks
split_breaks-append [] s h = let (p, ps, e) = split_breaks-cons false s in rw e refl
split_breaks-append (c ∷ l) s h = elim (Bool-cases (is_line_break c)) [
  | inl breaks ↦ absurd (ground (arith, h, breaks))
  | inr stays ↦
      ap (λ b. before_break c (split_breaks b (l ++ b'\n' ∷ s))) (no_cr c stays)
      ∙ ap (before_break c) (split_breaks-append l s (ground (arith, h)))
      ∙ rw stays refl
]

split_breaks-unlines :
    (ls : List Text) → All OneLine ls → split_breaks false (unlines ls) ≡ ls ++ [] ∷ []
unfolding split_breaks
split_breaks-unlines [] h = refl
split_breaks-unlines (l ∷ ls) h =
    split_breaks-append l (unlines ls) h.0 ∙ ap (◌∷◌ l) (split_breaks-unlines ls h.1)

splitlines-unlines : (ls : List Text) → All OneLine ls → splitlines (unlines ls) ≡ ls
unfolding splitlines
splitlines-unlines ls h = ap drop_last_empty (split_breaks-unlines ls h) ∙ drop_last_empty-append ls

closed-OneLine : (l : Text) → OneLine l → OneLine (l ++ semicolon)
closed-OneLine [] h = refl
closed-OneLine (c ∷ l) h = ground (arith, closed-OneLine l)

All-append : (xs ys : List Text) → All OneLine xs → All OneLine ys → All OneLine (xs ++ ys)
All-append [] ys hx hy = hy
All-append (x ∷ xs) ys hx hy = (hx.0, All-append xs ys hx.1 hy)

lines-OneLine : (ls : List Text) → All IsLine ls → All OneLine ls
lines-OneLine [] h = tt
lines-OneLine (l ∷ ls) h = (h.0.one_line, lines-OneLine ls h.1)

item-OneLine : (i : ScriptItem) → IsItem i → All OneLine (item_lines i)
item-OneLine (comment_line l) h = (h.0, tt)
item-OneLine (statement ls l) h =
    All-append ls ((l ++ semicolon) ∷ []) (lines-OneLine ls h.0) (closed-OneLine l h.1, tt)

script-OneLine : (is : List ScriptItem) → All IsItem is → All OneLine (script_lines is)
script-OneLine [] h = tt
script-OneLine (i ∷ is) h =
    All-append (item_lines i) (script_lines is) (item-OneLine i h.0) (script-OneLine is h.1)

-- A script of comment lines and of statements, each on lines of its own with a semicolon at the end
-- of its last, is split into exactly the statements, in their order and without the semicolons. No
-- line inside a statement is a comment or ends with a semicolon or a blank.
pub split_statements-unlines :
    (is : List ScriptItem)
    → All IsItem is
    → split_statements (unlines (script_lines is)) ≡ statements_of is
unfolding split_statements
split_statements-unlines is h =
    ap (λ ls. split_lines ls [] []) (splitlines-unlines (script_lines is) (script-OneLine is h))
    ∙ split_lines-script is [] h
