-- ===== src/Examples/Builders.antt =====
-- A small database with a foreign key and a view, and a service that reads one of its tables.
use db_platform.Base.{String, true, false, ◌≡◌, some, none, List, [], ◌∷◌}
use db_platform.Base.Result.{ok, Ends}
use db_platform.Graph.{DependencyGraph, empty_graph}
use db_platform.Graph.WellFormed.{empty_graph-IsWellFormed}
use db_platform.Metadata.{ForeignKeyMetadata, TableMetadata, ViewMetadata, DatabaseMetadata}
use db_platform.Dependencies.{AppDependencyConfig, ServiceDependency}
use db_platform.Dependencies.Collected.{add_database_metadata}
use db_platform.Dependencies.Configured.{add_app_config}
use db_platform.Dependencies.Total.{IsBuilt}
use db_platform.Dependencies.Edges.{Grown, add_database_metadata-IsBuilt}
use db_platform.Dependencies.References.{IsBadReference, add_app_config-Ends}

abbrev plain_table : String → List ForeignKeyMetadata → TableMetadata
plain_table name keys = record {
  schema = "public";
  name = name;
  columns = [];
  indexes = [];
  constraints = [];
  foreign_keys = keys;
  row_estimate = some 100;
  table_size_bytes = none;
  index_size_bytes = none;
  is_partitioned = false;
  partition_key = none;
}

abbrev to_customers : ForeignKeyMetadata
to_customers = record {
  name = "orders_customer_fk";
  columns = "customer_id" ∷ [];
  referenced_schema = "public";
  referenced_table = "customers";
  referenced_columns = "id" ∷ [];
  on_delete = "NO ACTION";
  on_update = "NO ACTION";
}

abbrev open_orders : ViewMetadata
open_orders = record {
  schema = "public";
  name = "open_orders";
  definition = "";
  is_materialized = false;
  referenced_tables = "public.orders" ∷ "public.gone" ∷ [];
}

abbrev metadata : DatabaseMetadata
metadata = record {
  database_name = "shop";
  engine = "postgres";
  engine_version = "16";
  schemas =
      record {
        name = "public";
        tables = plain_table "orders" (to_customers ∷ []) ∷ plain_table "customers" [] ∷ [];
        views = open_orders ∷ [];
      }
      ∷ [];
  collected_at = "now";
}

abbrev checkout : ServiceDependency
checkout = record {
  name = "checkout";
  type = "service";
  production = true;
  critical = true;
  owner = none;
  reads = "shop.public.orders" ∷ [];
  writes = "shop.orders" ∷ [];
}

abbrev config : AppDependencyConfig
config = record { databases = []; services = checkout ∷ []; replication = []; apis = [] }

is_built : IsBuilt empty_graph
is_built = record { formed = empty_graph-IsWellFormed; confident = tt }

add_database_metadata-IsBuilt_example :
    (g : DependencyGraph) × (add_database_metadata "shop" metadata empty_graph ≡ ok g)
    × Grown empty_graph g
add_database_metadata-IsBuilt_example =
    add_database_metadata-IsBuilt "shop" metadata empty_graph is_built

add_app_config-Ends_example :
    Ends (Grown empty_graph) (IsBadReference config) (add_app_config config empty_graph)
add_app_config-Ends_example = add_app_config-Ends config empty_graph is_built
