-- ===== src/Sql/Alter.antt =====
-- `_parse_alter_table_action` of analyzers/database/parser.py: one clause of an ALTER TABLE.
use Prim.Native.Char.{code}
use db_platform.Base.{
  ℕ, ◌-◌, String, Bool, true, false, Option, none, some, List, [], ◌∷◌, ◌++◌, leb, eqb, ◌&&◌, ◌||◌,
  if◌then◌else◌, concat,
}
use db_platform.Base.Dict.{get}
use db_platform.Base.Value.{Value, Items, nil, cons, str, boolean, items}
use db_platform.Change.{DatabaseChangeOperation, DatabaseOperation}
use db_platform.Readiness.{strip}
use db_platform.Sql.{Unicode}
use db_platform.Sql.Patterns.Clauses.{
  add_column_pattern, drop_column_pattern, alter_column_type_pattern, set_not_null_pattern,
  drop_not_null_pattern, set_default_pattern, drop_default_pattern, rename_column_pattern,
  rename_table_pattern, add_foreign_key_pattern, add_primary_key_pattern, add_constraint_pattern,
  drop_constraint_pattern, attach_partition_pattern, detach_partition_pattern,
}
use db_platform.Sql.Regex.{group_of, Attempt, first_match}
use db_platform.Sql.Text.{split_qualified, top_level_split}

-- An operation on a table, with the defaults of the dataclass.
abbrev pub operation_on :
    DatabaseOperation → String → Option String → String → DatabaseChangeOperation
operation_on operation schema table raw_sql = record {
  operation = operation;
  database = none;
  schema = schema;
  table = table;
  column = none;
  index = none;
  constraint = none;
  data_type = none;
  old_state = none;
  proposed_state = none;
  raw_sql = raw_sql;
}

abbrev pub text_items : List String → Items
text_items [] = nil
text_items (s ∷ rest) = cons (str s) (text_items rest)

-- `_top_level_split(m.group(...))`, as a value
unfoldable pub column_list : String → Value
unfolding top_level_split
column_list text = items (text_items (top_level_split "," text))

unfoldable pub codes : String → List ℕ
codes String.[] = []
codes (String.◌∷◌ c s) = code c ∷ codes s

-- `s.upper()`, as codes
unfoldable pub upper_codes : Unicode → String → List ℕ
unfolding codes
upper_codes u String.[] = []
upper_codes u (String.◌∷◌ c s) =
    let n = code c in
    let rest = upper_codes u s in
    if leb n 127
    then (if leb b'a' n && leb n b'z' then n - 32 else n) ∷ rest
    else codes (u.upper c) ++ rest

abbrev begins : List ℕ → List ℕ → Bool
begins [] ns = true
begins (m ∷ ms) [] = false
begins (m ∷ ms) (n ∷ ns) = eqb m n && begins ms ns

-- `s in t`
abbrev is_part : List ℕ → List ℕ → Bool
is_part ms [] = begins ms []
is_part ms (n ∷ ns) = begins ms (n ∷ ns) || is_part ms ns

-- `word in constraints.upper()`
unfoldable pub says : Unicode → String → String → Value
unfolding codes upper_codes
says u word constraints = boolean (is_part (codes word) (upper_codes u constraints))

abbrev pub Groups : Type 0
Groups = List (String × String)

-- The clauses in the order in which they are tried, each with the operation that it stands for.
unfoldable pub clause_attempts :
    Unicode → String → String → String → List (Attempt DatabaseChangeOperation)
unfolding group_of get split_qualified column_list says strip add_column_pattern drop_column_pattern
    alter_column_type_pattern set_not_null_pattern drop_not_null_pattern set_default_pattern
    drop_default_pattern rename_column_pattern rename_table_pattern add_foreign_key_pattern
    add_primary_key_pattern add_constraint_pattern drop_constraint_pattern attach_partition_pattern
    detach_partition_pattern
clause_attempts u schema table raw_sql =
    (
      add_foreign_key_pattern,
      λ m.
          let referenced = split_qualified (group_of "ref" m) in
          record (on_table DatabaseOperation.add_foreign_key) {
            constraint = get "name" m;
            proposed_state = some (
                ("columns", column_list (group_of "cols" m))
                ∷ ("referenced_table", str (concat (referenced.0 ∷ "." ∷ referenced.1 ∷ [])))
                ∷ ("referenced_columns", column_list (group_of "ref_cols" m))
                ∷ []);
          },
    )
    ∷ (
      add_primary_key_pattern,
      λ m. record (on_table DatabaseOperation.add_primary_key) {
        constraint = get "name" m;
        proposed_state = some (("columns", column_list (group_of "cols" m)) ∷ []);
      },
    )
    ∷ (
      add_constraint_pattern,
      λ m. record (on_table DatabaseOperation.add_constraint) {
        constraint = get "name" m;
        proposed_state = some (("definition", str (strip (group_of "def" m))) ∷ []);
      },
    )
    ∷ (
      drop_constraint_pattern,
      λ m. record (on_table DatabaseOperation.drop_constraint) { constraint = get "name" m },
    )
    ∷ (
      add_column_pattern,
      λ m.
          let constraints = group_of "constraints" m in
          let data_type = strip (group_of "type" m) in
          record (on_table DatabaseOperation.add_column) {
            column = get "col" m;
            data_type = some data_type;
            proposed_state = some (
                ("data_type", str data_type)
                ∷ ("not_null", says u "NOT NULL" constraints)
                ∷ ("has_default", says u "DEFAULT" constraints)
                ∷ ("primary_key", says u "PRIMARY KEY" constraints)
                ∷ []);
          },
    )
    ∷ (
      drop_column_pattern,
      λ m. record (on_table DatabaseOperation.drop_column) { column = get "col" m },
    )
    ∷ (
      rename_column_pattern,
      λ m. record (on_table DatabaseOperation.rename_column) {
        column = get "old" m;
        old_state = some (named (group_of "old" m));
        proposed_state = some (named (group_of "new" m));
      },
    )
    ∷ (
      rename_table_pattern,
      λ m. record (on_table DatabaseOperation.rename_table) {
        old_state = some (named table);
        proposed_state = some (named (group_of "new" m));
      },
    )
    ∷ (
      alter_column_type_pattern,
      λ m.
          let data_type = strip (group_of "type" m) in
          record (on_table DatabaseOperation.alter_column_type) {
            column = get "col" m;
            data_type = some data_type;
            proposed_state = some (("data_type", str data_type) ∷ []);
          },
    )
    ∷ (
      set_not_null_pattern,
      λ m. record (on_table DatabaseOperation.set_column_not_null) { column = get "col" m },
    )
    ∷ (
      drop_not_null_pattern,
      λ m. record (on_table DatabaseOperation.drop_column_not_null) { column = get "col" m },
    )
    ∷ (
      set_default_pattern,
      λ m. record (on_table DatabaseOperation.set_column_default) {
        column = get "col" m;
        proposed_state = some (("default", str (strip (group_of "default" m))) ∷ []);
      },
    )
    ∷ (
      drop_default_pattern,
      λ m. record (on_table DatabaseOperation.drop_column_default) { column = get "col" m },
    )
    ∷ (
      attach_partition_pattern,
      λ m. record (on_table DatabaseOperation.attach_partition) {
        proposed_state = some (("partition", str (group_of "name" m)) ∷ []);
      },
    )
    ∷ (
      detach_partition_pattern,
      λ m. record (on_table DatabaseOperation.detach_partition) {
        proposed_state = some (("partition", str (group_of "name" m)) ∷ []);
      },
    )
    ∷ []
  where
    on_table : DatabaseOperation → DatabaseChangeOperation
    on_table operation = operation_on operation schema (some table) raw_sql

    named : String → List (String × Value)
    named name = ("name", str name) ∷ []

unfoldable pub parse_alter_table_action :
    Unicode → String → String → String → String → DatabaseChangeOperation
unfolding strip first_match clause_attempts
parse_alter_table_action u schema table clause raw_sql =
    elim (first_match u (clause_attempts u schema table raw_sql) (strip clause)) [
      | none ↦ operation_on DatabaseOperation.unknown schema (some table) raw_sql
      | some operation ↦ operation
    ]
