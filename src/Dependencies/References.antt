-- ===== src/Dependencies/References.antt =====
-- How `add_app_config` of dependencies/graph_builder.py ends: with a graph, or at a reference that is
-- no table.
use db_platform.Base.{
  ℕ, String, [], ◌∷◌, ◌++◌, ◌≡◌, refl, ◌⊎◌, inl, inr, arith, Has, Any, Any-Has, concat,
  Option-cases, ◌≤◌,
}
use db_platform.Base.Dict.{has-get-some}
use db_platform.Base.Frac.{IsUnit, percent}
use db_platform.Base.Result.{
  Result, err, for_each, Ends, for_each-Ends, then-Ends, Ends-map, Result-cases,
}
use db_platform.Graph.{DependencyNode, DependencyGraph, node, add_node}
use db_platform.Dependencies.{
  BuildError, TableRef, ServiceDependency, ReplicationEdge, ApiDependency, AppDependencyConfig,
  parse_ref, service_node_id, api_node_id,
}
use db_platform.Dependencies.Configured.{
  id_of_ref, ensure_node, bare_table, replica_table, configured_edge, ensure_table_edge,
  add_reference, database_node, service_node, add_service, replicate, add_replication, api_node,
  serve, add_api, add_databases, add_app_config, text_or_null,
}
use db_platform.Dependencies.Total.{
  HasNode, IsBuilt, Extends, HasNode-add_node, HasNode-added, add_node-IsBuilt, each-keeps,
}
use db_platform.Dependencies.Edges.{Grown, link-Grown}

-- A text that the configuration has where it names a table.
pub record IsNamed (config : AppDependencyConfig) (raw : String) : Type 0 where
  pub where_named :
      Any (λ service. Has raw (service.reads ++ service.writes)) config.services
      ⊎ (Any (λ edge. (raw ≡ edge.source) ⊎ (raw ≡ edge.target)) config.replication
          ⊎ Any (λ api. Has raw api.tables) config.apis)

-- The error for a reference of the configuration that does not parse.
abbrev pub IsBadReference : AppDependencyConfig → BuildError → Type 0
IsBadReference config e = (raw : String) × IsNamed config raw × (parse_ref raw ≡ err e)

percent-IsUnit : (n : ℕ) → n ≤ 100 → IsUnit (percent n)
percent-IsUnit n h = record { pos = omega arith; le_one = h }

ensure_node-Grown :
    (g0 g : DependencyGraph) (n : DependencyNode)
    → Grown g0 g
    → Grown g0 (ensure_node n g) × Extends g (ensure_node n g) × HasNode (ensure_node n g) n.id
unfolding ensure_node node
ensure_node-Grown g0 g n (built, more) = elim (Option-cases (node g n.id)) [
  | inl gone ↦
      rw (ensure_node, gone)
        (
          (add_node-IsBuilt g n built, λ id h. HasNode-add_node g n id (more id h)),
          (λ id h. HasNode-add_node g n id h),
          HasNode-added g n,
        )
  | inr (m, there) ↦
      rw (ensure_node, there) ((built, more), (λ id h. h), has-get-some n.id m g.nodes there)
]

Grown-through : (g0 g1 g : DependencyGraph) → Extends g0 g1 → Grown g1 g → Grown g0 g
Grown-through g0 g1 g first (built, more) = (built, λ id h. more id (first id h))

module _ (config : AppDependencyConfig) where
  -- How a call on a graph that grew from another ends.
  abbrev EndsGrown : DependencyGraph → Result BuildError DependencyGraph → Type 0
  EndsGrown g0 r = Ends (Grown g0) (IsBadReference config) r

  add_reference-Ends :
      (g0 : DependencyGraph) (dependent raw : String)
      → HasNode g0 dependent
      → IsNamed config raw
      → (g : DependencyGraph) → Grown g0 g
      → EndsGrown g0 (add_reference dependent raw g)
  unfolding add_reference ensure_table_edge
  add_reference-Ends g0 dependent raw there named g grown = elim (Result-cases (parse_ref raw)) [
    | inr (e, bad) ↦ inr (e, rw (add_reference, bad) refl, (raw, named, bad))
    | inl (ref, parsed) ↦
        let (ensured, later, target) = ensure_node-Grown g0 g (bare_table ref) grown in
        let (g', made, after) =
          link-Grown g0 (ensure_node (bare_table ref) g)
            (configured_edge dependent (id_of_ref ref) "reads_or_writes" (percent 85) []) ensured
            (ensured.1 dependent there) target (percent-IsUnit 85 (omega arith)) in
        inl (g', rw (add_reference, parsed) made, after)
  ]

  add_service-Ends :
      (g0 : DependencyGraph) (service : ServiceDependency)
      → Has service config.services
      → (g : DependencyGraph) → Grown g0 g
      → EndsGrown g0 (add_service service g)
  unfolding add_service
  add_service-Ends g0 service m g grown =
      let n = service_node service in
      let g1 = add_node g n in
      Ends-map (Grown g1) (Grown g0) (IsBadReference config) _
        (λ s h. Grown-through g0 g1 s (λ id k. HasNode-add_node g n id (grown.1 id k)) h)
        (for_each-Ends (add_reference n.id) (Grown g1) (IsBadReference config)
          (service.reads ++ service.writes)
          (λ raw k s h.
            add_reference-Ends g1 n.id raw (HasNode-added g n)
              (record { where_named = inl (Any-Has _ config.services service m k) }) s h)
          g1 (add_node-IsBuilt g n grown.0, λ id h. h))

  replicate-Ends :
      (g0 : DependencyGraph) (edge : ReplicationEdge) (source target : TableRef)
      (g : DependencyGraph)
      → Grown g0 g
      → EndsGrown g0 (replicate edge source target g)
  unfolding replicate
  replicate-Ends g0 edge source target g grown =
      let (grown1, later1, has_source) = ensure_node-Grown g0 g (bare_table source) grown in
      let g1 = ensure_node (bare_table source) g in
      let (grown2, later2, has_target) =
        ensure_node-Grown g0 g1 (replica_table edge target) grown1 in
      let (g', made, after) =
        link-Grown g0 (ensure_node (replica_table edge target) g1)
          (configured_edge (id_of_ref target) (id_of_ref source)
            (concat ("replication:" ∷ edge.mechanism ∷ [])) (percent 90)
            (("pipeline_name", text_or_null edge.pipeline_name) ∷ []))
          grown2 has_target (later2 _ has_source) (percent-IsUnit 90 (omega arith)) in
      inl (g', made, after)

  add_replication-Ends :
      (g0 : DependencyGraph) (edge : ReplicationEdge)
      → Has edge config.replication
      → (g : DependencyGraph) → Grown g0 g
      → EndsGrown g0 (add_replication edge g)
  unfolding add_replication
  add_replication-Ends g0 edge m g grown = elim (Result-cases (parse_ref edge.source)) [
    | inr (e, bad) ↦ inr (
      e,
      rw (add_replication, bad) refl,
      (
        edge.source,
        record { where_named = inr (inl (Any-Has _ config.replication edge m (inl refl))) },
        bad,
      ),
    )
    | inl (source, parsed) ↦ elim (Result-cases (parse_ref edge.target)) [
      | inr (e, bad) ↦ inr (
        e,
        rw (add_replication, parsed, bad) refl,
        (
          edge.target,
          record { where_named = inr (inl (Any-Has _ config.replication edge m (inr refl))) },
          bad,
        ),
      )
      | inl (target, parsed') ↦
          rw (add_replication, parsed, parsed') (replicate-Ends g0 edge source target g grown)
    ]
  ]

  serve-Ends :
      (g0 : DependencyGraph) (api : ApiDependency)
      → HasNode g0 (api_node_id api.name)
      → (g : DependencyGraph) → Grown g0 g
      → EndsGrown g0 (serve api g)
  unfolding serve node
  serve-Ends g0 api there g grown = elim (Option-cases (node g (service_node_id api.service))) [
    | inl gone ↦ inl (g, rw (serve, gone) refl, grown)
    | inr (n, service) ↦
        let (g', made, after) =
          link-Grown g0 g
            (configured_edge (api_node_id api.name) (service_node_id api.service) "served_by"
              (percent 95) [])
            grown (grown.1 _ there) (has-get-some (service_node_id api.service) n g.nodes service)
            (percent-IsUnit 95 (omega arith)) in
        inl (g', rw (serve, service) made, after)
  ]

  add_api-Ends :
      (g0 : DependencyGraph) (api : ApiDependency)
      → Has api config.apis
      → (g : DependencyGraph) → Grown g0 g
      → EndsGrown g0 (add_api api g)
  unfolding add_api api_node
  add_api-Ends g0 api m g grown =
      let n = api_node api in
      let g1 = add_node g n in
      Ends-map (Grown g1) (Grown g0) (IsBadReference config) _
        (λ s h. Grown-through g0 g1 s (λ id k. HasNode-add_node g n id (grown.1 id k)) h)
        (then-Ends (Grown g1) (IsBadReference config) (serve api g1)
          (for_each (add_reference (api_node_id api.name)) api.tables)
          (serve-Ends g1 api (HasNode-added g n) g1 (add_node-IsBuilt g n grown.0, λ id h. h))
          (for_each-Ends (add_reference (api_node_id api.name)) (Grown g1) (IsBadReference config)
            api.tables
            (λ raw k s h.
              add_reference-Ends g1 (api_node_id api.name) raw (HasNode-added g n)
                (record { where_named = inr (inr (Any-Has _ config.apis api m k)) }) s h)))

-- On a built graph `add_app_config` builds a graph that keeps the former nodes, or raises for a
-- reference of the configuration that does not parse; no edge is ever added without its nodes.
pub add_app_config-Ends :
    (config : AppDependencyConfig) (g : DependencyGraph)
    → IsBuilt g
    → Ends (Grown g) (IsBadReference config) (add_app_config config g)
unfolding add_app_config add_databases
add_app_config-Ends config g built =
    let g1 = add_databases config g in
    let grown =
      each-keeps (λ db h. add_node h (database_node db)) (Grown g) config.databases
        (λ db s h. (
          add_node-IsBuilt s (database_node db) h.0,
          λ id k. HasNode-add_node s (database_node db) id (h.1 id k),
        ))
        g (built, λ id h. h) in
    then-Ends (Grown g) (IsBadReference config) (for_each add_service config.services g1) _
      (for_each-Ends add_service (Grown g) (IsBadReference config) config.services
        (add_service-Ends config g) g1 grown)
      (λ s h.
        then-Ends (Grown g) (IsBadReference config) (for_each add_replication config.replication s)
          _
          (for_each-Ends add_replication (Grown g) (IsBadReference config) config.replication
            (add_replication-Ends config g) s h)
          (for_each-Ends add_api (Grown g) (IsBadReference config) config.apis
            (add_api-Ends config g)))
