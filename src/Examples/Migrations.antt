-- ===== src/Examples/Migrations.antt =====
-- Some migrations, with the results of analyzers/database/parser.py.
use db_platform.Base.{
  String, true, false, not, some, List, [], ◌∷◌, ◌≡◌, refl, map, keep, length, All, Any, ◌==◌,
}
use db_platform.Change.{DatabaseOperation, add_column, unknown}
use db_platform.Readiness.{strip}
use db_platform.Sql.{Unicode}
use db_platform.Sql.Patterns.{
  create_table_pattern, drop_table_pattern, alter_table_pattern, create_index_pattern,
  drop_index_pattern, create_view_pattern, drop_view_pattern, create_function_pattern,
  drop_function_pattern, alter_function_pattern,
}
use db_platform.Sql.Patterns.Clauses.{
  add_column_pattern, drop_column_pattern, alter_column_type_pattern, set_not_null_pattern,
  drop_not_null_pattern, set_default_pattern, drop_default_pattern, rename_column_pattern,
  rename_table_pattern, add_foreign_key_pattern, add_primary_key_pattern, add_constraint_pattern,
  drop_constraint_pattern, attach_partition_pattern, detach_partition_pattern,
}
use db_platform.Sql.Regex.{Regex, match, group_of}
use db_platform.Sql.Splitting.{append, join}
use db_platform.Sql.Clauses.{
  Nested, finished, plain, in_quotes, in_parens, lacks, top_level_split-join,
}
use db_platform.Sql.Statement.{Sqlparse, parse_statement, split_statements, parse_sql}
use db_platform.Sql.Text.{split_qualified, top_level_split}
use db_platform.Sql.Traced.{IsOn, parse_sql-quotes, parse_statement-alter}

-- Every character that is not ASCII is taken for a sign of its own.
abbrev signs : Unicode
signs = record { is_alphanumeric = λ _. false; upper = λ c. String.◌∷◌ c "" }

-- A text of one statement with nothing to strip.
abbrev one_statement : Sqlparse
one_statement = record { split = λ s. s ∷ []; format = λ s. s }

abbrev patterns : List Regex
patterns =
    create_table_pattern ∷ drop_table_pattern ∷ alter_table_pattern ∷ create_index_pattern
    ∷ drop_index_pattern ∷ create_view_pattern ∷ drop_view_pattern ∷ create_function_pattern
    ∷ drop_function_pattern ∷ alter_function_pattern ∷ add_column_pattern ∷ drop_column_pattern
    ∷ alter_column_type_pattern ∷ set_not_null_pattern ∷ drop_not_null_pattern ∷ set_default_pattern
    ∷ drop_default_pattern ∷ rename_column_pattern ∷ rename_table_pattern ∷ add_foreign_key_pattern
    ∷ add_primary_key_pattern ∷ add_constraint_pattern ∷ drop_constraint_pattern
    ∷ attach_partition_pattern ∷ detach_partition_pattern ∷ []

abbrev operations_of : String → List DatabaseOperation
operations_of text = map (λ op. op.operation) (parse_statement signs text)

-- An unnamed constraint is read as a column.
unnamed_constraints :
    map (λ op. op.column) (parse_statement signs "ALTER TABLE t ADD UNIQUE (a), ADD CHECK (x > 0)")
    ≡ some "UNIQUE" ∷ some "CHECK" ∷ []
unfolding parse_statement
unnamed_constraints = refl

unknown_clause :
    operations_of "ALTER TABLE t ADD c int, VALIDATE CONSTRAINT k" ≡ add_column ∷ unknown ∷ []
unfolding parse_statement
unknown_clause = refl

-- A statement that is of no known kind leaves nothing.
unknown_statement : operations_of "TRUNCATE TABLE orders" ≡ []
unfolding parse_statement
unknown_statement = refl

abbrev altered : String
altered = "ALTER TABLE shop.orders ADD COLUMN note text DEFAULT 'a,b', DROP COLUMN old"

abbrev altered_groups : List (String × String)
altered_groups =
    ("actions", "ADD COLUMN note text DEFAULT 'a,b', DROP COLUMN old")
    ∷ ("table", "shop.orders")
    ∷ []

a_type : Nested false "a(1,2)"
unfolding append
a_type = plain false "a" "(1,2)" refl (
    in_parens false "1,2" ""
      (plain true "1" ",2" refl (plain true "," "2" refl (plain true "2" "" refl (finished true))))
      (finished false))

a_text : Nested false " ','"
unfolding append lacks
a_text = plain false " " "','" refl (in_quotes false "," "" refl (finished false))

top_level_split-join_example :
    top_level_split "," (join "," ("a(1,2)" ∷ "" ∷ " ','" ∷ []))
    ≡ map strip (keep (λ c. not (strip c == "")) ("a(1,2)" ∷ "" ∷ " ','" ∷ []))
top_level_split-join_example =
    top_level_split-join "a(1,2)" ("" ∷ " ','" ∷ []) (a_type, (finished false, (a_text, tt)))

parse_sql-quotes_example :
    All
      (λ op. Any (λ s. op.raw_sql ≡ strip s) (split_statements one_statement altered))
      (parse_sql one_statement signs altered)
parse_sql-quotes_example = parse_sql-quotes one_statement signs altered

parse_statement-alter_example :
    (length (parse_statement signs altered)
      ≡ length (top_level_split "," (group_of "actions" altered_groups)))
    × All
        (IsOn
          (split_qualified (group_of "table" altered_groups)).0
          (some (split_qualified (group_of "table" altered_groups)).1)
          (strip altered))
        (parse_statement signs altered)
unfolding match create_table_pattern drop_table_pattern alter_table_pattern strip
parse_statement-alter_example = parse_statement-alter signs altered altered_groups refl refl refl
