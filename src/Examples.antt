-- ===== src/Examples.antt =====
-- A small system for the examples: an orders table, a critical checkout service that reads it, and
-- an API that calls the service.
pub mod Graphs
pub mod Radius
pub mod Risks
pub mod Policies
pub mod Audits
pub mod Requests
pub mod Provisions
pub mod Builders
pub mod Levels
pub mod Migrations
use db_platform.Base.{String, true, none, List, [], ◌∷◌, some}
use db_platform.Base.Frac.{Frac, percent, whole}
use db_platform.Base.Value.{Value, boolean, str}
use db_platform.Graph.{
  DependencyNode, Dependency, DependencyGraph, ResourceType, DependencySource, empty_graph,
  add_node, add_edge,
}

abbrev pub orders : DependencyNode
orders = record {
  id = "table:shop.public.orders";
  resource_type = ResourceType.table;
  name = "orders";
  metadata = ("database", str "shop") ∷ [];
}

abbrev pub checkout : DependencyNode
checkout = record {
  id = "service:checkout";
  resource_type = ResourceType.service;
  name = "checkout";
  metadata = ("critical", boolean true) ∷ [];
}

abbrev pub storefront : DependencyNode
storefront = record {
  id = "api:storefront";
  resource_type = ResourceType.api_endpoint;
  name = "storefront";
  metadata = [];
}

abbrev edge : String → String → Frac → Dependency
edge from to confidence = record {
  source_id = from;
  target_id = to;
  relationship = "reads";
  source = DependencySource.configuration;
  confidence = confidence;
  last_observed = none;
  metadata = [];
}

abbrev pub reads : Dependency
reads = edge "service:checkout" "table:shop.public.orders" (percent 90)

abbrev pub calls : Dependency
calls = edge "api:storefront" "service:checkout" (whole 1)

abbrev pub with_nodes : DependencyGraph
with_nodes = add_node (add_node (add_node empty_graph orders) checkout) storefront

abbrev pub with_reads : DependencyGraph
with_reads = record with_nodes {
  edges = reads ∷ [];
  outgoing_index = ("service:checkout", reads ∷ []) ∷ [];
  incoming_index = ("table:shop.public.orders", reads ∷ []) ∷ [];
}

abbrev pub shop : DependencyGraph
shop = record with_nodes {
  edges = reads ∷ calls ∷ [];
  outgoing_index = ("service:checkout", reads ∷ []) ∷ ("api:storefront", calls ∷ []) ∷ [];
  incoming_index = ("table:shop.public.orders", reads ∷ []) ∷ ("service:checkout", calls ∷ []) ∷ [];
}
