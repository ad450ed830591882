-- ===== src/Dependencies/Collected.antt =====
-- `add_database_metadata` of dependencies/graph_builder.py: the graph of what a connector collected of
-- one database. The nodes come first, then the edges of the foreign keys and of the views.
use Prim.Native.Char.{code}
use db_platform.Base.{ℕ, String, Option, none, some, List, [], ◌∷◌, concat, eqb, if◌then◌else◌}
use db_platform.Base.Frac.{whole}
use db_platform.Base.Number.{plus}
use db_platform.Base.Result.{Result, ok, err, for_each}
use db_platform.Base.Value.{Value, null, boolean, number, str}
use db_platform.Graph.{
  ResourceType, DependencySource, DependencyNode, Dependency, DependencyGraph, node, add_node,
  add_edge,
}
use db_platform.Metadata.{
  ForeignKeyMetadata, TableMetadata, ViewMetadata, SchemaMetadata, DatabaseMetadata, table_name,
  view_name,
}
use db_platform.Dependencies.{BuildError, no_endpoint, table_node_id, view_node_id, database_id}

-- A `for` loop whose rounds raise nothing.
abbrev pub each {ℓ κ} : {S : Type ℓ} {A : Type κ} → (A → S → S) → List A → S → S
each step [] s = s
each step (a ∷ more) s = each step more (step a s)

abbrev count_or_null : Option ℕ → Value
count_or_null none = null
count_or_null (some n) = number (plus (whole n))

unfoldable pub table_node : String → String → TableMetadata → DependencyNode
unfolding table_node_id table_name
table_node database schema table = record {
  id = table_node_id database schema table.name;
  resource_type = ResourceType.table;
  name = table_name table;
  metadata =
      ("database", str database)
      ∷ ("row_estimate", count_or_null table.row_estimate)
      ∷ ("table_size_bytes", count_or_null table.table_size_bytes)
      ∷ [];
}

unfoldable pub view_node : String → String → ViewMetadata → DependencyNode
unfolding view_node_id view_name
view_node database schema view = record {
  id = view_node_id database schema view.name;
  resource_type = ResourceType.view;
  name = view_name view;
  metadata = ("database", str database) ∷ ("is_materialized", boolean view.is_materialized) ∷ [];
}

unfoldable pub add_schema_nodes : String → SchemaMetadata → DependencyGraph → DependencyGraph
unfolding add_node table_node view_node
add_schema_nodes database schema g =
    each (λ view h. add_node h (view_node database schema.name view)) schema.views
      (each (λ table h. add_node h (table_node database schema.name table)) schema.tables g)

-- The KeyError of `add_edge` as a result.
unfoldable pub link : Dependency → DependencyGraph → Result BuildError DependencyGraph
unfolding add_edge
link edge g = elim (add_edge g edge) [ none ↦ err no_endpoint | some g' ↦ ok g' ]

abbrev pub collected_edge : String → String → String → Dependency
collected_edge source target relationship = record {
  source_id = source;
  target_id = target;
  relationship = relationship;
  source = DependencySource.database_metadata;
  confidence = whole 1;
  last_observed = none;
  metadata = [];
}

abbrev pub foreign_key_edge : String → String → ForeignKeyMetadata → Dependency
foreign_key_edge database source fk =
    collected_edge source (table_node_id database fk.referenced_schema fk.referenced_table)
      (concat ("foreign_key:" ∷ fk.name ∷ []))

unfoldable pub add_foreign_key :
    String → String → ForeignKeyMetadata → DependencyGraph → Result BuildError DependencyGraph
unfolding table_node_id node link
add_foreign_key database source fk g =
    elim (node g (table_node_id database fk.referenced_schema fk.referenced_table)) [
      | none ↦ ok g
      | some _ ↦ link (foreign_key_edge database source fk) g
    ]

unfoldable pub add_foreign_keys :
    String → SchemaMetadata → DependencyGraph → Result BuildError DependencyGraph
unfolding add_foreign_key table_node_id
add_foreign_keys database schema g =
    for_each
      (λ table.
        for_each (add_foreign_key database (table_node_id database schema.name table.name))
          table.foreign_keys)
      schema.tables g

-- `ref.partition(".")`, without the dot: the text before the first dot, and the one after it.
unfoldable pub partition_dot : String → String × String
partition_dot String.[] = ("", "")
partition_dot (String.◌∷◌ c s) =
    let (before, after) = partition_dot s in
    if eqb (code c) 46 then ("", s) else (String.◌∷◌ c before, after)

-- The table of the name, if it is a node; else the view.
unfoldable pub referenced_id : String → String → DependencyGraph → String
unfolding partition_dot table_node_id view_node_id node
referenced_id database ref g =
    let (schema, name) = partition_dot ref in
    elim (node g (table_node_id database schema name)) [
      | none ↦ view_node_id database schema name
      | some _ ↦ table_node_id database schema name
    ]

unfoldable pub add_view_reference :
    String → String → String → DependencyGraph → Result BuildError DependencyGraph
unfolding referenced_id node link
add_view_reference database source ref g = elim (node g (referenced_id database ref g)) [
  | none ↦ ok g
  | some _ ↦ link (collected_edge source (referenced_id database ref g) "reads_from") g
]

unfoldable pub add_view_references :
    String → SchemaMetadata → DependencyGraph → Result BuildError DependencyGraph
unfolding add_view_reference view_node_id
add_view_references database schema g =
    for_each
      (λ view.
        for_each (add_view_reference database (view_node_id database schema.name view.name))
          view.referenced_tables)
      schema.views g

unfoldable pub add_nodes : String → DatabaseMetadata → DependencyGraph → DependencyGraph
unfolding add_node database_id add_schema_nodes
add_nodes database metadata g = each (add_schema_nodes database) metadata.schemas (
    add_node g (record {
      id = database_id database;
      resource_type = ResourceType.database;
      name = database;
      metadata = [];
    }))

unfoldable pub add_database_metadata :
    String → DatabaseMetadata → DependencyGraph → Result BuildError DependencyGraph
unfolding add_nodes add_foreign_keys add_view_references
add_database_metadata database metadata g =
    elim (for_each (add_foreign_keys database) metadata.schemas (add_nodes database metadata g)) [
      | err e ↦ err e
      | ok g' ↦ for_each (add_view_references database) metadata.schemas g'
    ]
