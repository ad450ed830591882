-- ===== src/Sql/Statement.antt =====
-- `parse_statement`, `split_statements` and `parse_sql` of analyzers/database/parser.py, and the
-- `analyze` of analyzers/database/analyzer.py. What `sqlparse` does, the splitting of a text into
-- statements and the removal of comments, is an argument.
use db_platform.Base.{
  String, Bool, false, not, Option, none, some, List, [], ◌∷◌, ◌++◌, ◌==◌, if◌then◌else◌, map, keep,
  length, is_empty,
}
use db_platform.Base.Dict.{get}
use db_platform.Base.Frac.{whole}
use db_platform.Base.Number.{plus}
use db_platform.Base.Result.{Result, ok, err}
use db_platform.Base.Value.{str, boolean, number}
use db_platform.Change.{Change, DatabaseChangeOperation, DatabaseOperation}
use db_platform.Readiness.{strip}
use db_platform.Sql.{Unicode}
use db_platform.Sql.Alter.{Groups, operation_on, column_list, parse_alter_table_action}
use db_platform.Sql.Patterns.{
  create_table_pattern, drop_table_pattern, alter_table_pattern, create_index_pattern,
  drop_index_pattern, create_view_pattern, drop_view_pattern, create_function_pattern,
  drop_function_pattern, alter_function_pattern,
}
use db_platform.Sql.Regex.{group_of, take_chars, Attempt, first_match}
use db_platform.Sql.Text.{unquote, split_qualified, top_level_split, strip_trailing}

-- `bool(m.group(...))`
unfoldable pub has_group : String → Groups → Bool
unfolding get
has_group name m = elim (get name m) [ none ↦ false | some text ↦ not (text == "") ]

-- `_unquote(m.group(...)) if m.group(...) else None`
unfoldable pub index_name : Groups → Option String
unfolding get unquote
index_name m = elim (get "index" m) [
  | none ↦ none
  | some text ↦ if text == "" then none else some (unquote text)
]

-- An operation on what a group names.
unfoldable pub operation_named :
    DatabaseOperation → String → String → Groups → DatabaseChangeOperation
unfolding split_qualified group_of
operation_named operation group raw_sql m =
    let parts = split_qualified (group_of group m) in
    operation_on operation parts.0 (some parts.1) raw_sql

-- The statements in the order in which they are tried, each with its operations.
unfoldable pub statement_attempts : Unicode → String → List (Attempt (List DatabaseChangeOperation))
unfolding group_of take_chars split_qualified top_level_split column_list strip has_group index_name
    operation_named parse_alter_table_action create_table_pattern drop_table_pattern
    alter_table_pattern create_index_pattern drop_index_pattern create_view_pattern
    drop_view_pattern create_function_pattern drop_function_pattern alter_function_pattern
statement_attempts u text =
    (
      create_table_pattern,
      λ m.
          record (operation_named DatabaseOperation.create_table "table" text m) {
            proposed_state = some (
                (
                  "column_count",
                  number (plus (whole (length (top_level_split "," (group_of "body" m))))),
                )
                ∷ ("partitioned", boolean (has_group "partition_by" m))
                ∷ []);
          }
          ∷ [],
    )
    ∷ (
      drop_table_pattern,
      λ m.
          map
            (λ name.
              let parts = split_qualified name in
              operation_on DatabaseOperation.drop_table parts.0 (some parts.1) text)
            (top_level_split "," (group_of "names" m)),
    )
    ∷ (
      alter_table_pattern,
      λ m.
          let parts = split_qualified (group_of "table" m) in
          map (λ clause. parse_alter_table_action u parts.0 parts.1 clause text)
            (top_level_split "," (group_of "actions" m)),
    )
    ∷ (
      create_index_pattern,
      λ m.
          record (operation_named
            (if has_group "concurrently" m
              then DatabaseOperation.create_index_concurrently
              else DatabaseOperation.create_index)
            "table" text m) {
              index = index_name m;
              proposed_state = some (
                  ("columns", column_list (group_of "cols" m))
                  ∷ ("unique", boolean (has_group "unique" m))
                  ∷ []);
            }
          ∷ [],
    )
    ∷ (
      drop_index_pattern,
      λ m.
          let parts = split_qualified (group_of "index" m) in
          record (operation_on DatabaseOperation.drop_index parts.0 none text) {
            index = some parts.1;
          }
          ∷ [],
    )
    ∷ (
      create_view_pattern,
      λ m.
          record (operation_named DatabaseOperation.create_view "view" text m) {
            proposed_state = some (
                ("materialized", boolean (has_group "matview" m))
                ∷ ("definition", str (take_chars 2000 (strip (group_of "query" m))))
                ∷ []);
          }
          ∷ [],
    )
    ∷ (drop_view_pattern, λ m. operation_named DatabaseOperation.drop_view "view" text m ∷ [])
    ∷ (
      create_function_pattern,
      λ m. operation_named DatabaseOperation.create_function "name" text m ∷ [],
    )
    ∷ (
      drop_function_pattern,
      λ m. operation_named DatabaseOperation.drop_function "name" text m ∷ [],
    )
    ∷ (
      alter_function_pattern,
      λ m. operation_named DatabaseOperation.alter_function "name" text m ∷ [],
    )
    ∷ []

unfoldable pub parse_statement : Unicode → String → List DatabaseChangeOperation
unfolding strip first_match statement_attempts
parse_statement u statement =
    elim (first_match u (statement_attempts u (strip statement)) (strip statement)) [
      | none ↦ []
      | some operations ↦ operations
    ]

-- `sqlparse.split(text)`, and `sqlparse.format(raw, strip_comments=True, reindent=False)`
pub record Sqlparse : Type 0 where
  pub split : String → List String
  pub format : String → String

unfoldable pub split_statements : Sqlparse → String → List String
unfolding strip strip_trailing
split_statements sqlparse sql_text =
    keep (λ s. not (s == ""))
      (map (λ raw. strip (strip_trailing b';' (strip (sqlparse.format raw))))
        (sqlparse.split sql_text))

unfoldable pub parse_all : Unicode → List String → List DatabaseChangeOperation
unfolding parse_statement
parse_all u [] = []
parse_all u (statement ∷ statements) = parse_statement u statement ++ parse_all u statements

unfoldable pub parse_sql : Sqlparse → Unicode → String → List DatabaseChangeOperation
unfolding split_statements parse_all
parse_sql sqlparse u sql_text = parse_all u (split_statements sqlparse sql_text)

-- ParseError, with which of its two messages.
pub data ParseError : Type 0 where
  no_content no_statements : ParseError

-- `DatabaseChangeAnalyzer.analyze`
unfoldable pub analyze_change :
    Sqlparse → Unicode → Change → Result ParseError (List DatabaseChangeOperation)
unfolding strip split_statements parse_sql
analyze_change sqlparse u change =
    if strip change.raw_content == ""
    then err no_content
    else if is_empty (split_statements sqlparse change.raw_content)
    then err no_statements
    else ok (parse_sql sqlparse u change.raw_content)
