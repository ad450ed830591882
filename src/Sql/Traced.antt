-- ===== src/Sql/Traced.antt =====
-- What every operation that analyzers/database/parser.py makes of a text carries of it.
use db_platform.Base.{
  String, Option, none, some, List, [], ◌∷◌, ◌≡◌, refl, sym, inl, inr, map, All, All-append, Any,
  length, Option-cases, some-injective,
}
use db_platform.Change.{DatabaseChangeOperation}
use db_platform.Readiness.{strip}
use db_platform.Sql.{Unicode}
use db_platform.Sql.Alter.{clause_attempts, parse_alter_table_action}
use db_platform.Sql.Regex.{Attempt, match, first_match, group_of}
use db_platform.Sql.Statement.{
  operation_named, statement_attempts, parse_statement, Sqlparse, split_statements, parse_all,
  parse_sql,
}
use db_platform.Sql.Text.{split_qualified, top_level_split}
use db_platform.Sql.Patterns.{create_table_pattern, drop_table_pattern, alter_table_pattern}

-- What holds of all that the attempts make holds of what the first one that matches makes.
first_match-All :
    {A : Type 0} (u : Unicode) (P : A → Type 0) (attempts : List (Attempt A)) (text : String)
    (a : A)
    → All (λ attempt. (m : List (String × String)) → P (attempt.1 m)) attempts
    → first_match u attempts text ≡ some a
    → P a
unfolding first_match
first_match-All u P [] text a h e = cc
first_match-All u P ((pattern, make) ∷ attempts) text a h e =
    elim (Option-cases (match u pattern text)) [
      | inl n ↦ first_match-All u P attempts text a h.1 (rw (n, first_match) at e)
      | inr (m, n) ↦ rw (sym (some-injective _ _ (rw (n, first_match) at e))) (h.0 m)
    ]

abbrev pub IsOn : String → Option String → String → DatabaseChangeOperation → Type 0
IsOn schema table raw_sql op = (op.schema ≡ schema) × (op.table ≡ table) × (op.raw_sql ≡ raw_sql)

clause_attempts-IsOn :
    (u : Unicode) (schema table raw_sql : String)
    → All
        (λ attempt. (m : List (String × String)) → IsOn schema (some table) raw_sql (attempt.1 m))
        (clause_attempts u schema table raw_sql)
unfolding clause_attempts
clause_attempts-IsOn u schema table raw_sql = (
  same,
  (
    same,
    (
      same,
      (
        same,
        (same, (same, (same, (same, (same, (same, (same, (same, (same, (same, (same, tt))))))))))),
      ),
    ),
  ),
)
  where
    same : {A : Type 0} → A → (schema ≡ schema) × (some table ≡ some table) × (raw_sql ≡ raw_sql)
    same m = (refl, refl, refl)

parse_alter_table_action-IsOn :
    (u : Unicode) (schema table clause raw_sql : String)
    → IsOn schema (some table) raw_sql (parse_alter_table_action u schema table clause raw_sql)
unfolding parse_alter_table_action
parse_alter_table_action-IsOn u schema table clause raw_sql =
    elim (Option-cases (first_match u (clause_attempts u schema table raw_sql) (strip clause))) [
      | inl n ↦ rw (n, parse_alter_table_action) (refl, refl, refl)
      | inr (op, e) ↦
          rw (e, parse_alter_table_action)
            (first_match-All u (IsOn schema (some table) raw_sql)
              (clause_attempts u schema table raw_sql) (strip clause) op
              (clause_attempts-IsOn u schema table raw_sql) e)
    ]

All-map :
    {A B : Type 0} (P : B → Type 0) (f : A → B) (xs : List A)
    → ((x : A) → P (f x))
    → All P (map f xs)
All-map P f [] h = tt
All-map P f (x ∷ xs) h = (h x, All-map P f xs h)

All-imply :
    {A : Type 0} (P Q : A → Type 0) (xs : List A) → ((x : A) → P x → Q x) → All P xs → All Q xs
All-imply P Q [] h k = tt
All-imply P Q (x ∷ xs) h k = (h x k.0, All-imply P Q xs h k.1)

length-map : {A B : Type 0} (f : A → B) (xs : List A) → length (map f xs) ≡ length xs
length-map f [] = refl
length-map f (x ∷ xs) = rw (length-map f xs) refl

abbrev Quotes : String → List DatabaseChangeOperation → Type 0
Quotes text operations = All (λ op. op.raw_sql ≡ text) operations

statement_attempts-Quotes :
    (u : Unicode) (text : String)
    → All
        (λ attempt. (m : List (String × String)) → Quotes text (attempt.1 m))
        (statement_attempts u text)
unfolding statement_attempts operation_named
statement_attempts-Quotes u text = (
  λ _. (refl, tt),
  (
    λ _. All-map _ _ _ (λ _. refl),
    (
      altered,
      (
        λ _. (refl, tt),
        (
          λ _. (refl, tt),
          (
            λ _. (refl, tt),
            (λ _. (refl, tt), (λ _. (refl, tt), (λ _. (refl, tt), (λ _. (refl, tt), tt)))),
          ),
        ),
      ),
    ),
  ),
)
  where
    altered :
        (m : List (String × String))
        → Quotes text (
            map
              (λ clause.
                parse_alter_table_action u
                  (split_qualified (group_of "table" m)).0
                  (split_qualified (group_of "table" m)).1
                  clause
                  text)
              (top_level_split "," (group_of "actions" m)))
    altered m =
        All-map _ _ (top_level_split "," (group_of "actions" m))
          (λ clause. (parse_alter_table_action-IsOn u _ _ clause text).2)

parse_statement-Quotes :
    (u : Unicode) (statement : String) → Quotes (strip statement) (parse_statement u statement)
unfolding parse_statement
parse_statement-Quotes u statement =
    elim (Option-cases (first_match u (statement_attempts u (strip statement)) (strip statement))) [
      | inl n ↦ rw (n, parse_statement) tt
      | inr (ops, e) ↦
          rw (e, parse_statement)
            (first_match-All u (Quotes (strip statement)) (statement_attempts u (strip statement))
              (strip statement) ops (statement_attempts-Quotes u (strip statement)) e)
    ]

parse_all-Quotes :
    (u : Unicode) (statements : List String)
    → All (λ op. Any (λ s. op.raw_sql ≡ strip s) statements) (parse_all u statements)
unfolding parse_all
parse_all-Quotes u [] = tt
parse_all-Quotes u (s ∷ rest) =
    All-append _ (parse_statement u s) (parse_all u rest)
      (All-imply _ _ (parse_statement u s) (λ op e. inl e) (parse_statement-Quotes u s))
      (All-imply _ _ (parse_all u rest) (λ op k. inr k) (parse_all-Quotes u rest))

-- Every operation that `parse_sql` gives carries, as its `raw_sql`, the stripped text of one of the
-- statements that the text was split into.
pub parse_sql-quotes :
    (sqlparse : Sqlparse) (u : Unicode) (sql_text : String)
    → All
        (λ op. Any (λ s. op.raw_sql ≡ strip s) (split_statements sqlparse sql_text))
        (parse_sql sqlparse u sql_text)
unfolding parse_sql
parse_sql-quotes sqlparse u sql_text = parse_all-Quotes u (split_statements sqlparse sql_text)

-- Where a statement is no CREATE TABLE and no DROP TABLE but an ALTER TABLE, `parse_statement` gives
-- as many operations as the list of its actions has clauses, those that it cannot classify
-- included, and each of them is on the table that the statement names.
pub parse_statement-alter :
    (u : Unicode) (statement : String) (m : List (String × String))
    → match u create_table_pattern (strip statement) ≡ none
    → match u drop_table_pattern (strip statement) ≡ none
    → match u alter_table_pattern (strip statement) ≡ some m
    → (length (parse_statement u statement) ≡ length (top_level_split "," (group_of "actions" m)))
      × All
          (IsOn
            (split_qualified (group_of "table" m)).0
            (some (split_qualified (group_of "table" m)).1)
            (strip statement))
          (parse_statement u statement)
unfolding parse_statement statement_attempts first_match
parse_statement-alter u statement m c d a =
    rw (c, d, a, parse_statement, first_match)
      (
        length-map _ (top_level_split "," (group_of "actions" m)),
        All-map _ _ (top_level_split "," (group_of "actions" m))
            (λ clause. parse_alter_table_action-IsOn u _ _ clause (strip statement)),
      )
