-- ===== src/Queue/Migrate/Examples.antt =====
-- A small migration, and a comment behind a statement.
use langgraph_agents.Base.{
  ◌≡◌, refl, false, List, [], ◌∷◌, All, text, text_lt, text_eq, starts_with, strip, lstrip, rstrip,
}
use langgraph_agents.Queue.Migrate.{
  split_statements, split_lines, split_breaks, splitlines, statement_of, is_comment, ends_statement,
  rstrip_semicolons, ensure_schema, sort_files, insert_file, applied, ends_with,
}
use langgraph_agents.Queue.Migrate.Statements.{
  ScriptItem, comment_line, statement, unlines, script_lines, IsItem, IsLine,
  split_statements-unlines,
}

abbrev script : List ScriptItem
script =
    comment_line (text "-- first; comment")
    ∷ statement (text "CREATE TABLE t (" ∷ text "  id TEXT" ∷ []) (text ")")
    ∷ statement [] (text "CREATE INDEX i")
    ∷ []

table-IsLine : IsLine (text "CREATE TABLE t (")
unfolding rstrip lstrip is_comment ends_statement starts_with
table-IsLine = record { one_line = refl; trimmed = refl; no_comment = refl; open_ended = refl }

column-IsLine : IsLine (text "  id TEXT")
unfolding rstrip lstrip is_comment ends_statement starts_with
column-IsLine = record { one_line = refl; trimmed = refl; no_comment = refl; open_ended = refl }

script-IsItem : All IsItem script
unfolding rstrip lstrip is_comment starts_with rstrip_semicolons
script-IsItem = (
  (refl, refl),
  (
    ((table-IsLine, (column-IsLine, tt)), refl, refl, (refl, refl, refl)),
    ((tt, refl, refl, (refl, refl, refl)), tt),
  ),
)

split_statements-unlines_example :
    split_statements (unlines (script_lines script))
    ≡ text "CREATE TABLE t (\n  id TEXT\n)" ∷ text "CREATE INDEX i" ∷ []
split_statements-unlines_example = split_statements-unlines script script-IsItem

-- Two statements are sent as one where a comment follows the semicolon on its line.
merged :
    split_statements (text "CREATE TABLE a; -- first\nCREATE TABLE b;\n")
    ≡ text "CREATE TABLE a; -- first\nCREATE TABLE b" ∷ []
unfolding split_statements split_lines splitlines statement_of is_comment ends_statement
    rstrip_semicolons split_breaks strip lstrip rstrip starts_with
merged = refl

-- A form feed ends a line too, and "\r\n" is one break.
breaks_test :
    split_breaks false (45 ∷ 12 ∷ 65 ∷ 13 ∷ 10 ∷ 66 ∷ []) ≡ (45 ∷ []) ∷ (65 ∷ []) ∷ (66 ∷ []) ∷ []
unfolding split_breaks
breaks_test = refl

ordered :
    ensure_schema (
      record { name = text "002.sql"; sql = text "B;" }
      ∷ record { name = text "001.sql"; sql = text "A;" }
      ∷ record { name = text "__init__.py"; sql = text "C;" }
      ∷ [])
    ≡ text "A" ∷ text "B" ∷ []
unfolding ensure_schema sort_files insert_file applied ends_with split_statements split_lines
    splitlines statement_of is_comment ends_statement rstrip_semicolons split_breaks strip lstrip
    rstrip starts_with text_eq text_lt
ordered = refl
