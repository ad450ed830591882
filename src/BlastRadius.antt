-- ===== src/BlastRadius.antt =====
-- domain/blast_radius.py and blast_radius/analyzer.py: what a change could reach. A set of names
-- that the source sorts is a sorted list with no repetition.
pub mod Bounds
pub mod Collect
pub mod Rounds
pub mod Contents
pub mod Direct
use Prim.Native.Nat.{Ordering}
use Prim.Native.String.{compare}
use db_platform.Base.{
  ℕ, ◌+◌, ◌*◌, zero, suc, String, Bool, true, false, not, Option, none, some, List, [], ◌∷◌, ◌++◌,
  leb, ◌&&◌, ◌||◌, if◌then◌else◌, length, is_empty, ◌==◌,
}
use db_platform.Base.Dict
use db_platform.Base.Frac.{Frac, whole, add_frac, mul_frac, round_frac}
use db_platform.Base.Value
use db_platform.Base.Value.{Value, truthy}
use db_platform.Graph.{
  DependencyNode, Dependency, DependencyGraph, AffectedResource, Impact, Criticality, ResourceType,
  node,
}
use db_platform.Graph.Traverse.{Found, downstream_of, upstream_of}

pub data Scope : Type 0 where
  narrow moderate wide extensive unknown : Scope

pub record BlastRadius : Type 0 where
  pub direct_impact : List AffectedResource
  pub downstream_impact : List AffectedResource
  pub upstream_dependencies : List AffectedResource
  pub affected_services : List String
  pub affected_databases : List String
  pub affected_tables : List String
  pub affected_apis : List String
  pub affected_data_pipelines : List String
  pub critical_dependencies : List String
  pub estimated_scope : Scope
  pub confidence : Frac

unfoldable pub total_affected_count : BlastRadius → ℕ
total_affected_count b = length b.direct_impact + length b.downstream_impact

unfoldable pub criticality_of : DependencyNode → Criticality
unfolding truthy
criticality_of n = elim (Dict.get "critical" n.metadata) [
  | none ↦ Criticality.unknown
  | some v ↦ if truthy v then Criticality.critical else Criticality.standard
]

unfoldable pub is_production_node : DependencyNode → Bool
unfolding truthy
is_production_node n = elim (Dict.get "production" n.metadata) [ none ↦ true | some v ↦ truthy v ]

-- The loop of `_path_confidence`
unfoldable pub path_product : List Dependency → Frac → Frac
path_product [] confidence = confidence
path_product (edge ∷ path) confidence = path_product path (mul_frac confidence edge.confidence)

unfoldable pub path_confidence : List Dependency → Frac
unfolding path_product round_frac
path_confidence path = round_frac 4 (path_product path (whole 1))

unfoldable pub sum_of_confidences : List AffectedResource → Frac
unfolding path_confidence
sum_of_confidences [] = whole 0
sum_of_confidences (r ∷ rs) = add_frac (path_confidence r.via) (sum_of_confidences rs)

unfoldable pub estimate_confidence : List AffectedResource → Frac
unfolding sum_of_confidences round_frac
estimate_confidence [] = whole 1
estimate_confidence (r ∷ rs) =
    let sum = sum_of_confidences (r ∷ rs) in
    round_frac 4 (record { num = sum.num; den = sum.den * length (r ∷ rs) })

-- `_SCOPE_THRESHOLDS` and the bump for a critical resource
unfoldable pub scope_by_count : ℕ → Scope
scope_by_count downstream_count =
    if leb downstream_count 1
    then Scope.narrow
    else if leb downstream_count 4
    then Scope.moderate
    else if leb downstream_count 9
    then Scope.wide
    else Scope.extensive

unfoldable pub estimate_scope : ℕ → Bool → Scope
unfolding scope_by_count
estimate_scope downstream_count has_critical = elim (scope_by_count downstream_count) [
  | narrow ↦ if has_critical then Scope.moderate else Scope.narrow
  | moderate ↦ Scope.moderate
  | wide ↦ Scope.wide
  | extensive ↦ Scope.extensive
  | unknown ↦ Scope.unknown
]

-- `sorted({...})`
unfoldable pub insert_sorted : String → List String → List String
insert_sorted s [] = s ∷ []
insert_sorted s (t ∷ ts) =
    let later = t ∷ insert_sorted s ts in
    elim (compare s t) [ Ordering.lt ↦ s ∷ t ∷ ts | Ordering.eq ↦ t ∷ ts | Ordering.gt ↦ later ]

unfoldable pub sorted_set : List String → List String
unfolding insert_sorted
sorted_set [] = []
sorted_set (s ∷ ss) = insert_sorted s (sorted_set ss)

unfoldable pub names_where : (AffectedResource → Bool) → List AffectedResource → List String
names_where p [] = []
names_where p (r ∷ rs) = let rest = names_where p rs in if p r then r.resource.name ∷ rest else rest

abbrev is_service : AffectedResource → Bool
is_service r = elim r.resource.resource_type [ ResourceType.service ↦ true | _ ↦ false ]

abbrev is_api : AffectedResource → Bool
is_api r = elim r.resource.resource_type [ ResourceType.api_endpoint ↦ true | _ ↦ false ]

abbrev is_pipeline : AffectedResource → Bool
is_pipeline r = elim r.resource.resource_type [ ResourceType.data_pipeline ↦ true | _ ↦ false ]

abbrev is_table : AffectedResource → Bool
is_table r = elim r.resource.resource_type [
  | ResourceType.table ↦ true
  | ResourceType.view ↦ true
  | ResourceType.replication_target ↦ true
  | _ ↦ false
]

abbrev pub is_critical : AffectedResource → Bool
is_critical r = elim r.criticality [ Criticality.critical ↦ true | _ ↦ false ]

unfoldable pub database_names : List AffectedResource → List String
database_names [] = []
database_names (r ∷ rs) =
    let rest = database_names rs in
    elim (Dict.get "database" r.resource.metadata) [
      | none ↦ rest
      | some v ↦ elim v [ Value.str s ↦ s ∷ rest | _ ↦ rest ]
    ]

-- A list that `analyze` fills, with the ids that it has seen: `seen_downstream` beside `downstream`,
-- and `seen_upstream` beside `upstream`.
pub record Collected : Type 0 where
  pub seen : List String
  pub resources : List AffectedResource

pub record Analysis : Type 0 where
  pub direct : List AffectedResource
  pub downstream : Collected
  pub upstream : Collected

abbrev pub no_analysis : Analysis
no_analysis = record {
  direct = [];
  downstream = record { seen = []; resources = [] };
  upstream = record { seen = []; resources = [] };
}

unfoldable pub is_seen : String → List String → Bool
is_seen id [] = false
is_seen id (s ∷ seen) = s == id || is_seen id seen

unfoldable pub affected : Impact → Found → AffectedResource
unfolding criticality_of is_production_node
affected impact f = record {
  resource = f.node;
  impact = impact;
  hops = f.hop_count;
  criticality = criticality_of f.node;
  production = is_production_node f.node;
  via = f.path;
}

-- The body of the two inner `for` loops, which differ in the impact and the lists only.
unfoldable pub offer : Impact → String → Collected → Found → Collected
unfolding is_seen affected
offer impact node_id c f =
    if is_seen f.node.id c.seen || f.node.id == node_id
    then c
    else record { seen = f.node.id ∷ c.seen; resources = c.resources ++ affected impact f ∷ [] }

unfoldable pub collect : Impact → String → List Found → Collected → Collected
collect impact node_id [] c = c
collect impact node_id (f ∷ fs) c = collect impact node_id fs (offer impact node_id c f)

unfoldable pub add_direct : DependencyNode → List AffectedResource → List AffectedResource
unfolding affected
add_direct n direct =
    direct ++ affected Impact.direct (record { node = n; hop_count = 0; path = [] }) ∷ []

-- One round of the `for` loop; `none` if a traversal runs out of fuel.
unfoldable pub analyze_node : DependencyGraph → ℕ → String → Analysis → Option Analysis
unfolding add_direct collect offer
analyze_node g max_hops node_id s = elim (node g node_id) [
  | none ↦ some s
  | some n ↦ elim (downstream_of g node_id max_hops) [
    | none ↦ none
    | some down ↦ elim (upstream_of g node_id max_hops) [
      | none ↦ none
      | some up ↦ some (record {
        direct = add_direct n s.direct;
        downstream = collect Impact.downstream node_id down s.downstream;
        upstream = collect Impact.upstream node_id up s.upstream;
      })
    ]
  ]
]

unfoldable pub analyze_nodes : DependencyGraph → ℕ → List String → Analysis → Option Analysis
analyze_nodes g max_hops [] s = some s
analyze_nodes g max_hops (id ∷ ids) s = elim (analyze_node g max_hops id s) [
  | none ↦ none
  | some s' ↦ analyze_nodes g max_hops ids s'
]

unfoldable pub summarise :
    List AffectedResource → List AffectedResource → List AffectedResource → BlastRadius
unfolding sorted_set names_where database_names estimate_scope estimate_confidence
summarise direct downstream upstream =
    let all_impacted = direct ++ downstream in
    let critical = sorted_set (names_where is_critical downstream) in
    record {
      direct_impact = direct;
      downstream_impact = downstream;
      upstream_dependencies = upstream;
      affected_services = sorted_set (names_where is_service all_impacted);
      affected_databases = sorted_set (database_names all_impacted);
      affected_tables = sorted_set (names_where is_table all_impacted);
      affected_apis = sorted_set (names_where is_api all_impacted);
      affected_data_pipelines = sorted_set (names_where is_pipeline all_impacted);
      critical_dependencies = critical;
      estimated_scope = estimate_scope (length downstream) (not (is_empty critical));
      confidence = estimate_confidence downstream;
    }

unfoldable pub analyze : DependencyGraph → ℕ → List String → Option BlastRadius
unfolding analyze_nodes summarise
analyze g max_hops affected_node_ids =
    elim (analyze_nodes g max_hops affected_node_ids no_analysis) [
      | none ↦ none
      | some s ↦ some (summarise s.direct s.downstream.resources s.upstream.resources)
    ]

-- The default of `BlastRadiusAnalyzer.__init__`
abbrev pub default_max_hops : ℕ
default_max_hops = 4
