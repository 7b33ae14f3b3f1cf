-- ===== src/Queue/Migrate.antt =====
-- src/agents/queue/migrate.py: the statements of the migration files, in the order of their names.
-- A file is its name and its text, and a statement that has been executed is listed.
pub mod Statements
pub mod Examples
use langgraph_agents.Base.{
  ℕ, Bool, true, false, List, [], ◌∷◌, ◌++◌, ◌==◌, if◌then◌else◌, Text, text, text_lt, starts_with,
  strip, lstrip, rstrip, join, ◌&&◌, is_line_break, text_eq, ◌||◌,
}

-- `splitlines`, which has no last empty line.
abbrev pub drop_last_empty : List Text → List Text
drop_last_empty [] = []
drop_last_empty ([] ∷ []) = []
drop_last_empty ((c ∷ l) ∷ []) = (c ∷ l) ∷ []
drop_last_empty (l ∷ m ∷ ls) = l ∷ drop_last_empty (m ∷ ls)

abbrev pub before_break : ℕ → List Text → List Text
before_break c [] = (c ∷ []) ∷ []
before_break c (l ∷ ls) = if is_line_break c then [] ∷ l ∷ ls else (c ∷ l) ∷ ls

unfoldable pub split_breaks : (after_cr : Bool) → Text → List Text
split_breaks after_cr [] = [] ∷ []
split_breaks after_cr (c ∷ s) =
    let rest = split_breaks (c == b'\r') s in
    if after_cr && c == b'\n' then rest else before_break c rest

unfoldable pub splitlines : Text → List Text
splitlines s = drop_last_empty (split_breaks false s)

-- `s.endswith(";")`
unfoldable pub ends_statement : Text → Bool
ends_statement [] = false
ends_statement (c ∷ []) = c == b';'
ends_statement (c ∷ d ∷ s) = ends_statement (d ∷ s)

-- A character before a text whose last semicolons are gone.
abbrev pub before_semicolons : ℕ → Text → Text
before_semicolons c [] = if c == b';' then [] else c ∷ []
before_semicolons c (d ∷ t) = c ∷ d ∷ t

-- `s.rstrip(";")`
unfoldable pub rstrip_semicolons : Text → Text
rstrip_semicolons [] = []
rstrip_semicolons (c ∷ s) = before_semicolons c (rstrip_semicolons s)

unfoldable pub statement_of : List Text → Text
statement_of buf = strip (rstrip_semicolons (strip (join b'\n' buf)))

abbrev pub appended : List Text → Text → List Text
appended statements [] = statements
appended statements (c ∷ s) = statements ++ (c ∷ s) ∷ []

unfoldable pub is_comment : Text → Bool
is_comment line = starts_with (text "--") (lstrip line)

unfoldable pub split_lines : List Text → (buf statements : List Text) → List Text
split_lines [] buf statements = appended statements (statement_of buf)
split_lines (raw_line ∷ lines) buf statements =
    let line = rstrip raw_line in
    let skipped = split_lines lines buf statements in
    let closed = split_lines lines [] (appended statements (statement_of (buf ++ line ∷ []))) in
    let kept = split_lines lines (buf ++ line ∷ []) statements in
    if is_comment line then skipped else if ends_statement line then closed else kept

unfoldable pub split_statements : Text → List Text
split_statements sql = split_lines (splitlines sql) [] []

pub record MigrationFile : Type 0 where
  pub name : Text
  pub sql : Text

unfoldable pub insert_file : MigrationFile → List MigrationFile → List MigrationFile
insert_file f [] = f ∷ []
insert_file f (g ∷ fs) =
    let later = insert_file f fs in if text_lt g.name f.name then g ∷ later else f ∷ g ∷ fs

unfoldable pub sort_files : List MigrationFile → List MigrationFile
sort_files [] = []
sort_files (f ∷ fs) = insert_file f (sort_files fs)

-- `f.name.endswith(".sql")`
unfoldable pub ends_with : Text → Text → Bool
ends_with suffix [] = text_eq suffix []
ends_with suffix (c ∷ s) = text_eq suffix (c ∷ s) || ends_with suffix s

-- The statements of the migrations of a sorted list, in the order of their execution.
unfoldable pub applied : List MigrationFile → List Text
applied [] = []
applied (f ∷ fs) =
    let rest = applied fs in
    if ends_with (text ".sql") f.name then split_statements f.sql ++ rest else rest

unfoldable pub ensure_schema : List MigrationFile → List Text
ensure_schema files = applied (sort_files files)
