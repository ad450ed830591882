-- ===== src/Graph.antt =====
-- domain/dependency.py and the graph's enumerations in domain/enums.py: resources, dependencies
-- with their provenance, and the graph that keeps them. The proofs are in the modules below.
pub mod WellFormed
pub mod Traverse
use db_platform.Base.{
  ℕ, String, Bool, false, true, not, Option, none, some, List, [], ◌∷◌, ◌++◌, if◌then◌else◌,
  starts_with, ◌||◌,
}
use db_platform.Base.Dict
use db_platform.Base.Frac.{Frac}
use db_platform.Base.Value.{Value}

pub data ResourceType : Type 0 where
  database schema table column index view constraint application service api_endpoint : ResourceType
  data_pipeline replication_target : ResourceType

pub data DependencySource : Type 0 where
  database_metadata application_code query_log tracing manual configuration : DependencySource
  inferred : DependencySource

pub record DependencyNode : Type 0 where
  pub id : String
  pub resource_type : ResourceType
  pub name : String
  pub metadata : List (String × Value)

-- "`source_id` depends on `target_id`"
pub record Dependency : Type 0 where
  pub source_id : String
  pub target_id : String
  pub relationship : String
  pub source : DependencySource
  pub confidence : Frac
  pub last_observed : Option String
  pub metadata : List (String × Value)

unfoldable pub is_confirmed : Dependency → Bool
is_confirmed e = elim e.source [ inferred ↦ false | _ ↦ true ]

pub data Impact : Type 0 where
  direct downstream upstream : Impact

pub data Criticality : Type 0 where
  critical standard unknown : Criticality

pub record AffectedResource : Type 0 where
  pub resource : DependencyNode
  pub impact : Impact
  pub hops : ℕ
  pub criticality : Criticality
  pub production : Bool
  pub via : List Dependency

-- `resource.via[-1].relationship.startswith("replication:")`
unfoldable pub ends_in_replication : List Dependency → Bool
ends_in_replication [] = false
ends_in_replication (e ∷ []) = starts_with e.relationship "replication:"
ends_in_replication (_ ∷ e ∷ rest) = ends_in_replication (e ∷ rest)

unfoldable pub is_replication_path : AffectedResource → Bool
unfolding ends_in_replication
is_replication_path resource = ends_in_replication resource.via

abbrev pub Adjacency : Type 0
Adjacency = List (String × List Dependency)

pub record DependencyGraph : Type 0 where
  pub nodes : List (String × DependencyNode)
  pub edges : List Dependency
  pub outgoing_index : Adjacency
  pub incoming_index : Adjacency

abbrev pub empty_graph : DependencyGraph
empty_graph = record { nodes = []; edges = []; outgoing_index = []; incoming_index = [] }

unfoldable pub node : DependencyGraph → String → Option DependencyNode
node g node_id = Dict.get node_id g.nodes

-- The graph after the call; the returned node is `node` of that graph.
unfoldable pub add_node : DependencyGraph → DependencyNode → DependencyGraph
add_node g n = record g { nodes = Dict.set_default n.id n g.nodes }

-- `adjacency.get(node_id, [])`
unfoldable pub neighbours : Adjacency → String → List Dependency
neighbours adjacency node_id = elim (Dict.get node_id adjacency) [ none ↦ [] | some es ↦ es ]

-- `adjacency.setdefault(node_id, []).append(edge)`
unfoldable pub push : String → Dependency → Adjacency → Adjacency
unfolding neighbours
push node_id edge adjacency = Dict.put node_id (neighbours adjacency node_id ++ edge ∷ []) adjacency

-- `none` is the KeyError for an endpoint that is not a node.
unfoldable pub add_edge : DependencyGraph → Dependency → Option DependencyGraph
unfolding push
add_edge g edge =
    if not (Dict.has edge.source_id g.nodes) || not (Dict.has edge.target_id g.nodes)
    then none
    else some (record g {
      edges = g.edges ++ edge ∷ [];
      outgoing_index = push edge.source_id edge g.outgoing_index;
      incoming_index = push edge.target_id edge g.incoming_index;
    })

unfoldable pub outgoing : DependencyGraph → String → List Dependency
unfolding neighbours
outgoing g node_id = neighbours g.outgoing_index node_id

unfoldable pub incoming : DependencyGraph → String → List Dependency
unfolding neighbours
incoming g node_id = neighbours g.incoming_index node_id
