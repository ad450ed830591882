-- ===== src/Change.antt =====
-- domain/change.py, with the enumerations of domain/enums.py that a change carries. The kind of an
-- operation is always "database", since the source defines no other.
pub mod Kinds
use Prim.Native.Nat.{◌+◌, ◌-◌}
use Prim.Native.Char.{code}
use Prim.Native.String
use db_platform.Base.{
  ℕ, String, Bool, true, false, Option, none, some, List, ◌&&◌, ◌||◌, eqb, leb, if◌then◌else◌,
  concat, [], ◌∷◌, ◌==◌,
}
use db_platform.Base.Value.{Value}

pub data ChangeType : Type 0 where
  database application api infrastructure configuration security data_pipeline : ChangeType
  infrastructure_as_code kubernetes cloud_resource : ChangeType

pub data ChangeSource : Type 0 where
  cli api web_ui git_diff pull_request manual : ChangeSource

-- Every DDL operation that the SQL parser can classify.
pub data DatabaseOperation : Type 0 where
  create_table alter_table drop_table rename_table add_column drop_column : DatabaseOperation
  alter_column_type rename_column set_column_default drop_column_default : DatabaseOperation
  set_column_not_null drop_column_not_null create_index : DatabaseOperation
  create_index_concurrently drop_index add_constraint drop_constraint : DatabaseOperation
  add_foreign_key add_primary_key create_view drop_view alter_view : DatabaseOperation
  create_function drop_function alter_function attach_partition : DatabaseOperation
  detach_partition unknown : DatabaseOperation

pub record DatabaseChangeOperation : Type 0 where
  pub operation : DatabaseOperation
  pub database : Option String
  pub schema : String
  pub table : Option String
  pub column : Option String
  pub index : Option String
  pub constraint : Option String
  pub data_type : Option String
  pub old_state : Option (List (String × Value))
  pub proposed_state : Option (List (String × Value))
  pub raw_sql : String

-- `None` where the table is `None` or empty
unfoldable pub qualified_table : DatabaseChangeOperation → Option String
qualified_table op = elim op.table [
  | none ↦ none
  | some t ↦ if t == "" then none else some (concat (op.schema ∷ "." ∷ t ∷ []))
]

pub record Change : Type 0 where
  pub change_type : ChangeType
  pub source : ChangeSource
  pub title : String
  pub submitted_by : String
  pub environment : String
  pub raw_content : String
  pub description : String
  pub id : String
  pub submitted_at : String
  pub target_database : Option String
  pub operations : List DatabaseChangeOperation
  pub metadata : List (String × Value)

abbrev pub lower_code : ℕ → ℕ
lower_code c = if leb 65 c && leb c 90 then c + 32 else c

-- `s.lower() == t`, for a `t` of lower-case ASCII letters
unfoldable pub lower_equals : String → String → Bool
lower_equals String.[] String.[] = true
lower_equals (String.◌∷◌ c s) (String.◌∷◌ d t) =
    eqb (lower_code (code c)) (code d) && lower_equals s t
lower_equals _ _ = false

unfoldable pub is_production : Change → Bool
unfolding lower_equals
is_production change =
    lower_equals change.environment "prod" || lower_equals change.environment "production"
