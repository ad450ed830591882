-- ===== src/Metadata.antt =====
-- metadata/models.py and `QueryStatistics` of connectors/base.py: what a connector collects of one
-- database. Sizes are in bytes and counts are estimates, none of them negative.
use db_platform.Base.{ℕ, String, Bool, Option, none, some, List, [], ◌∷◌, ◌++◌, concat, ◌==◌, first}

pub record ColumnMetadata : Type 0 where
  pub name : String
  pub data_type : String
  pub nullable : Bool
  pub default : Option String
  pub ordinal_position : ℕ
  pub is_primary_key : Bool

pub record ForeignKeyMetadata : Type 0 where
  pub name : String
  pub columns : List String
  pub referenced_schema : String
  pub referenced_table : String
  pub referenced_columns : List String
  pub on_delete : String
  pub on_update : String

pub record ConstraintMetadata : Type 0 where
  pub name : String
  pub constraint_type : String
  pub columns : List String
  pub definition : String

pub record IndexMetadata : Type 0 where
  pub name : String
  pub columns : List String
  pub is_unique : Bool
  pub is_primary : Bool
  pub size_bytes : Option ℕ
  pub definition : String

pub record TableMetadata : Type 0 where
  pub schema : String
  pub name : String
  pub columns : List ColumnMetadata
  pub indexes : List IndexMetadata
  pub constraints : List ConstraintMetadata
  pub foreign_keys : List ForeignKeyMetadata
  pub row_estimate : Option ℕ
  pub table_size_bytes : Option ℕ
  pub index_size_bytes : Option ℕ
  pub is_partitioned : Bool
  pub partition_key : Option String

-- `qualified_name` of a table
unfoldable pub table_name : TableMetadata → String
table_name t = concat (t.schema ∷ "." ∷ t.name ∷ [])

unfoldable pub column : TableMetadata → String → Option ColumnMetadata
column t name = first (λ c. c.name == name) t.columns

pub record ViewMetadata : Type 0 where
  pub schema : String
  pub name : String
  pub definition : String
  pub is_materialized : Bool
  pub referenced_tables : List String

-- `qualified_name` of a view
unfoldable pub view_name : ViewMetadata → String
view_name v = concat (v.schema ∷ "." ∷ v.name ∷ [])

pub record SchemaMetadata : Type 0 where
  pub name : String
  pub tables : List TableMetadata
  pub views : List ViewMetadata

pub record DatabaseMetadata : Type 0 where
  pub database_name : String
  pub engine : String
  pub engine_version : String
  pub schemas : List SchemaMetadata
  pub collected_at : String

-- The first schema of the name decides: a table of a later one is not found.
unfoldable pub find_table : DatabaseMetadata → String → String → Option TableMetadata
find_table d schema table = elim (first (λ s. s.name == schema) d.schemas) [
  | none ↦ none
  | some s ↦ first (λ t. t.name == table) s.tables
]

unfoldable pub find_view : DatabaseMetadata → String → String → Option ViewMetadata
find_view d schema view = elim (first (λ s. s.name == schema) d.schemas) [
  | none ↦ none
  | some s ↦ first (λ v. v.name == view) s.views
]

tables_of : List SchemaMetadata → List TableMetadata
tables_of [] = []
tables_of (s ∷ schemas) = s.tables ++ tables_of schemas

unfoldable pub all_tables : DatabaseMetadata → List TableMetadata
unfolding tables_of
all_tables d = tables_of d.schemas

pub record QueryStatistics : Type 0 where
  pub available : Bool
  pub seq_scans : Option ℕ
  pub index_scans : Option ℕ
  pub rows_read_estimate : Option ℕ
  pub last_analyzed : Option String
