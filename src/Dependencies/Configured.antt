-- ===== src/Dependencies/Configured.antt =====
-- `add_app_config` of dependencies/graph_builder.py: what the configured dependencies of the
-- applications add to the graph.
use db_platform.Base.{
  String, Bool, Option, none, some, List, [], ◌∷◌, ◌++◌, concat, ◌==◌, if◌then◌else◌,
}
use db_platform.Base.Frac.{Frac, percent}
use db_platform.Base.Result.{Result, ok, err, for_each}
use db_platform.Base.Value.{Value, null, boolean, str}
use db_platform.Graph.{
  ResourceType, DependencySource, DependencyNode, Dependency, DependencyGraph, node, add_node,
}
use db_platform.Dependencies.{
  BuildError, TableRef, ServiceDependency, ReplicationEdge, ApiDependency, DatabaseCriticality,
  AppDependencyConfig, qualified, parse_ref, table_node_id, service_node_id, api_node_id,
  pipeline_node_id, database_id,
}
use db_platform.Dependencies.Collected.{each, link}

abbrev pub text_or_null : Option String → Value
text_or_null none = null
text_or_null (some s) = str s

abbrev pub configured_edge : String → String → String → Frac → List (String × Value) → Dependency
configured_edge source target relationship confidence metadata = record {
  source_id = source;
  target_id = target;
  relationship = relationship;
  source = DependencySource.configuration;
  confidence = confidence;
  last_observed = none;
  metadata = metadata;
}

unfoldable pub id_of_ref : TableRef → String
unfolding table_node_id
id_of_ref ref = table_node_id ref.database ref.schema ref.table

-- `if self.graph.node(id) is None: self.graph.add_node(...)`
unfoldable pub ensure_node : DependencyNode → DependencyGraph → DependencyGraph
unfolding node add_node
ensure_node n g = elim (node g n.id) [ none ↦ add_node g n | some _ ↦ g ]

abbrev pub bare_table : TableRef → DependencyNode
unfolding id_of_ref qualified
bare_table ref = record {
  id = id_of_ref ref;
  resource_type = ResourceType.table;
  name = qualified ref;
  metadata = [];
}

-- `_ensure_table_edge`
unfoldable pub ensure_table_edge :
    String → TableRef → DependencyGraph → Result BuildError DependencyGraph
unfolding ensure_node link id_of_ref qualified
ensure_table_edge dependent ref g =
    link (configured_edge dependent (id_of_ref ref) "reads_or_writes" (percent 85) [])
      (ensure_node (bare_table ref) g)

unfoldable pub add_reference : String → String → DependencyGraph → Result BuildError DependencyGraph
unfolding parse_ref ensure_table_edge
add_reference dependent raw g = elim (parse_ref raw) [
  | err e ↦ err e
  | ok ref ↦ ensure_table_edge dependent ref g
]

unfoldable pub database_node : DatabaseCriticality → DependencyNode
unfolding database_id
database_node db = record {
  id = database_id db.name;
  resource_type = ResourceType.database;
  name = db.name;
  metadata = ("production", boolean db.production) ∷ ("critical", boolean db.critical) ∷ [];
}

abbrev is_data_pipeline : ServiceDependency → Bool
is_data_pipeline service = service.type == "data_pipeline"

unfoldable pub service_node : ServiceDependency → DependencyNode
unfolding pipeline_node_id service_node_id
service_node service = record {
  id =
      if is_data_pipeline service
      then pipeline_node_id service.name
      else service_node_id service.name;
  resource_type =
      if is_data_pipeline service then ResourceType.data_pipeline else ResourceType.service;
  name = service.name;
  metadata =
      ("production", boolean service.production)
      ∷ ("critical", boolean service.critical)
      ∷ ("owner", text_or_null service.owner)
      ∷ ("type", str service.type)
      ∷ [];
}

unfoldable pub add_service : ServiceDependency → DependencyGraph → Result BuildError DependencyGraph
unfolding add_node service_node add_reference
add_service service g =
    for_each (add_reference (service_node service).id) (service.reads ++ service.writes)
      (add_node g (service_node service))

abbrev pub replica_table : ReplicationEdge → TableRef → DependencyNode
unfolding id_of_ref qualified
replica_table edge ref = record {
  id = id_of_ref ref;
  resource_type = ResourceType.replication_target;
  name = qualified ref;
  metadata =
      ("mechanism", str edge.mechanism) ∷ ("pipeline_name", text_or_null edge.pipeline_name) ∷ [];
}

-- The round of a replication whose two references are parsed.
unfoldable pub replicate :
    ReplicationEdge → TableRef → TableRef → DependencyGraph → Result BuildError DependencyGraph
unfolding ensure_node link id_of_ref qualified
replicate edge source target g =
    link
      (configured_edge (id_of_ref target) (id_of_ref source)
        (concat ("replication:" ∷ edge.mechanism ∷ [])) (percent 90)
        (("pipeline_name", text_or_null edge.pipeline_name) ∷ []))
      (ensure_node (replica_table edge target) (ensure_node (bare_table source) g))

unfoldable pub add_replication :
    ReplicationEdge → DependencyGraph → Result BuildError DependencyGraph
unfolding parse_ref replicate
add_replication edge g = elim (parse_ref edge.source) [
  | err e ↦ err e
  | ok source ↦ elim (parse_ref edge.target) [
    | err e ↦ err e
    | ok target ↦ replicate edge source target g
  ]
]

unfoldable pub api_node : ApiDependency → DependencyNode
unfolding api_node_id
api_node api = record {
  id = api_node_id api.name;
  resource_type = ResourceType.api_endpoint;
  name = api.name;
  metadata = [];
}

-- The edge to the service that implements the API, if the service is a node.
unfoldable pub serve : ApiDependency → DependencyGraph → Result BuildError DependencyGraph
unfolding node link service_node_id api_node_id
serve api g = elim (node g (service_node_id api.service)) [
  | none ↦ ok g
  | some _ ↦
      link
        (configured_edge (api_node_id api.name) (service_node_id api.service) "served_by"
          (percent 95) [])
        g
]

unfoldable pub add_api : ApiDependency → DependencyGraph → Result BuildError DependencyGraph
unfolding add_node api_node serve add_reference api_node_id
add_api api g = elim (serve api (add_node g (api_node api))) [
  | err e ↦ err e
  | ok g' ↦ for_each (add_reference (api_node_id api.name)) api.tables g'
]

unfoldable pub add_databases : AppDependencyConfig → DependencyGraph → DependencyGraph
unfolding add_node database_node
add_databases config g = each (λ db h. add_node h (database_node db)) config.databases g

unfoldable pub add_app_config :
    AppDependencyConfig → DependencyGraph → Result BuildError DependencyGraph
unfolding add_databases add_service add_replication add_api
add_app_config config g = elim (for_each add_service config.services (add_databases config g)) [
  | err e ↦ err e
  | ok g1 ↦ elim (for_each add_replication config.replication g1) [
    | err e ↦ err e
    | ok g2 ↦ for_each add_api config.apis g2
  ]
]
