-- ===== src/Base/Strings.antt =====
-- Python's `str`, as its list of code points.
use Prim.Native.Nat.{ℕ, ◌+◌}
use Prim.Native.Char.{code}
use Prim.Native.String.{String}
use mathlib.Core.Path.{◌≡◌, refl, ap, ◌∙◌}
use mathlib.Core.Logic.{◌↔◌, inl, inr}
use mathlib.Core.Bool.{Bool, true, false, not, ◌&&◌, ◌||◌}
use mathlib.Core.Option.{Option, none, some}
use mathlib.Core.List.{List, [], ◌∷◌, ◌++◌}
use native.Mathlib.Omega.{arith}
use langgraph_agents.Base.Tests.{leb, ltb, ◌==◌, Bool-cases, if◌then◌else◌}

abbrev pub Text : Type 0
Text = List ℕ

-- The text of a literal.
abbrev pub text : String → Text
text String.[] = []
text (String.◌∷◌ c s) = code c ∷ text s

-- a == b
unfoldable pub text_eq : Text → Text → Bool
text_eq [] [] = true
text_eq (x ∷ xs) (y ∷ ys) = x == y && text_eq xs ys
text_eq _ _ = false

pub text_eq_iff : (a b : Text) → (text_eq a b ≡ true) ↔ (a ≡ b)
unfolding text_eq
text_eq_iff [] [] = ground arith
text_eq_iff [] (y ∷ ys) = ground arith
text_eq_iff (x ∷ xs) [] = ground arith
text_eq_iff (x ∷ xs) (y ∷ ys) = ground (arith, text_eq_iff xs ys)

pub text_eq_refl : (a : Text) → text_eq a a ≡ true
text_eq_refl a = (text_eq_iff a a).1 refl

-- s.startswith(p)
unfoldable pub starts_with : Text → Text → Bool
starts_with [] s = true
starts_with (p ∷ ps) [] = false
starts_with (p ∷ ps) (c ∷ s) = p == c && starts_with ps s

-- p in s
unfoldable pub contains_text : Text → Text → Bool
unfolding starts_with
contains_text p [] = starts_with p []
contains_text p (c ∷ s) = starts_with p (c ∷ s) || contains_text p s

-- `str.isspace` on the ASCII characters; `strip` removes these at both ends.
abbrev pub is_space : ℕ → Bool
is_space c = (leb 9 c && leb c 13) || (leb 28 c && leb c 32)

-- The characters that end a line for `str.splitlines`.
abbrev pub is_line_break : ℕ → Bool
is_line_break c =
    (leb 10 c && leb c 13) || (leb 28 c && leb c 30) || (c == 133 || (c == 8232 || c == 8233))

unfoldable pub lstrip : Text → Text
lstrip [] = []
lstrip (c ∷ s) = if is_space c then lstrip s else c ∷ s

-- A character before a stripped rest.
abbrev before_stripped : ℕ → Text → Text
before_stripped c [] = if is_space c then [] else c ∷ []
before_stripped c (d ∷ t) = c ∷ d ∷ t

unfoldable pub rstrip : Text → Text
rstrip [] = []
rstrip (c ∷ s) = before_stripped c (rstrip s)

unfoldable pub strip : Text → Text
unfolding lstrip rstrip
strip s = rstrip (lstrip s)

-- `str.lower` on ASCII
unfoldable pub lower : Text → Text
lower [] = []
lower (c ∷ s) = (if leb b'A' c && leb c b'Z' then c + 32 else c) ∷ lower s

-- `x or default` on an optional string: both `None` and "" are falsy.
abbrev pub text_or : Option Text → Text → Text
text_or none d = d
text_or (some []) d = d
text_or (some (c ∷ s)) d = c ∷ s

-- A character before the pieces of a split text.
abbrev before_pieces : ℕ → ℕ → List Text → List Text
before_pieces c d [] = (d ∷ []) ∷ []
before_pieces c d (p ∷ ps) = if d == c then [] ∷ p ∷ ps else (d ∷ p) ∷ ps

-- s.split(c), for one character: the pieces between the occurrences of `c`.
unfoldable pub split : ℕ → Text → List Text
split c [] = [] ∷ []
split c (d ∷ s) = before_pieces c d (split c s)

-- s.split(c, 1): the parts before and after the first `c`, if there is one.
unfoldable pub split_once : ℕ → Text → Option (Text × Text)
split_once c [] = none
split_once c (d ∷ s) =
    let rest = split_once c s in
    if d == c then some ([], s) else elim rest [ none ↦ none | some p ↦ some (d ∷ p.0, p.1) ]

-- s.rsplit(c, 1): the parts before and after the last `c`, if there is one.
unfoldable pub rsplit_once : ℕ → Text → Option (Text × Text)
rsplit_once c [] = none
rsplit_once c (d ∷ s) = elim (rsplit_once c s) [
  | none ↦ if d == c then some ([], s) else none
  | some p ↦ some (d ∷ p.0, p.1)
]

-- No occurrence of a character.
abbrev pub free_of : ℕ → Text → Bool
free_of c [] = true
free_of c (d ∷ s) = not (d == c) && free_of c s

pub rsplit_once-free : (c : ℕ) (s : Text) → free_of c s ≡ true → rsplit_once c s ≡ none
unfolding rsplit_once
rsplit_once-free c [] h = refl
rsplit_once-free c (d ∷ s) h = ground (arith, rsplit_once-free c s)

-- What stands before a separator and a text that has none.
pub rsplit_once-append :
    (c : ℕ) (p q : Text) → free_of c q ≡ true → rsplit_once c (p ++ c ∷ q) ≡ some (p, q)
unfolding rsplit_once
rsplit_once-append c [] q h = ground (arith, rsplit_once-free c q h)
rsplit_once-append c (d ∷ p) q h = ground (arith, rsplit_once-append c p q h)

-- The two parts of a split text make up the text.
abbrev pub Joins : ℕ → Text → Option (Text × Text) → Type 0
Joins c s none = Unit
Joins c s (some p) = s ≡ p.0 ++ c ∷ p.1

rsplit_once-step :
    (c d : ℕ) (s : Text) (o : Option (Text × Text))
    → rsplit_once c s ≡ o
    → Joins c s o
    → Joins c (d ∷ s) (rsplit_once c (d ∷ s))
unfolding rsplit_once
rsplit_once-step c d s none e j = rw (e, rsplit_once) (ground arith)
rsplit_once-step c d s (some p) e j = rw (e, rsplit_once) (ap (◌∷◌ d) j)

pub rsplit_once-Joins : (c : ℕ) (s : Text) → Joins c s (rsplit_once c s)
unfolding rsplit_once
rsplit_once-Joins c [] = tt
rsplit_once-Joins c (d ∷ s) = rsplit_once-step c d s (rsplit_once c s) refl (rsplit_once-Joins c s)

pub split-cons : (c : ℕ) (s : Text) → (p : Text) × (ps : List Text) × (split c s ≡ p ∷ ps)
unfolding split
split-cons c [] = ([], [], refl)
split-cons c (d ∷ s) = elim (Bool-cases (d == c)) [
  | inl sep ↦ let (p, ps, e) = split-cons c s in ([], p ∷ ps, rw (e, before_pieces) (ground arith))
  | inr other ↦ let (p, ps, e) = split-cons c s in (d ∷ p, ps, rw (e, before_pieces) (ground arith))
]

pub split-append : (c : ℕ) (p s : Text) → free_of c p ≡ true → split c (p ++ c ∷ s) ≡ p ∷ split c s
unfolding split
split-append c [] s h = let (p, ps, e) = split-cons c s in rw (e, before_pieces) (ground arith)
split-append c (d ∷ p) s h = ground (arith, split-append c p s)

pub split_once-append :
    (c : ℕ) (p s : Text) → free_of c p ≡ true → split_once c (p ++ c ∷ s) ≡ some (p, s)
unfolding split_once
split_once-append c [] s h = ground arith
split_once-append c (d ∷ p) s h = ground (arith, split_once-append c p s)

-- c.join(parts), for one character.
abbrev pub join : ℕ → List Text → Text
join c [] = []
join c (p ∷ []) = p
join c (p ∷ q ∷ ps) = p ++ c ∷ join c (q ∷ ps)

abbrev pub AllFree : ℕ → List Text → Type 0
AllFree c [] = Unit
AllFree c (p ∷ ps) = (free_of c p ≡ true) × AllFree c ps

pub split-free : (c : ℕ) (p : Text) → free_of c p ≡ true → split c p ≡ p ∷ []
unfolding split
split-free c [] h = refl
split-free c (d ∷ p) h = ground (arith, split-free c p)

-- Joined pieces are read back, where there is one and none contains the separator.
pub split-join :
    (c : ℕ) (p : Text) (ps : List Text) → AllFree c (p ∷ ps) → split c (join c (p ∷ ps)) ≡ p ∷ ps
split-join c p [] h = split-free c p h.0
split-join c p (q ∷ ps) h =
    split-append c p (join c (q ∷ ps)) h.0 ∙ ap (◌∷◌ p) (split-join c q ps h.1)

-- a < b
unfoldable pub text_lt : Text → Text → Bool
text_lt [] [] = false
text_lt [] (d ∷ t) = true
text_lt (c ∷ s) [] = false
text_lt (c ∷ s) (d ∷ t) =
    let rest = text_lt s t in if ltb c d then true else if ltb d c then false else rest
