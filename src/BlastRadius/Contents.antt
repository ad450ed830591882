-- ===== src/BlastRadius/Contents.antt =====
-- What `analyze` of blast_radius/analyzer.py lists against the dependencies of the graph.
use mathlib.Core.Option.{some-injective}
use db_platform.Base.{
  ℕ, ◌≤◌, String, ◌≡◌, ◌≢◌, sym, ap, true, none, some, List, [], arith, Has, Distinct, inl, inr,
  ◌⊎◌,
}
use db_platform.Base.Dict
use db_platform.Base.Dict.{has-get}
use db_platform.Graph.{Dependency, DependencyGraph, AffectedResource, Impact, node}
use db_platform.Graph.WellFormed.{IsWellFormed}
use db_platform.Graph.Traverse.{Found, downstream_of, upstream_of}
use db_platform.Graph.Traverse.Exact.{
  Chain, nothing, link, DependsOn, NeededBy, downstream_of_sound, downstream_of_shortest,
  upstream_of_sound, upstream_of_shortest,
}
use db_platform.BlastRadius.{
  BlastRadius, Analysis, no_analysis, is_seen, collect, analyze_nodes, summarise, analyze,
}
use db_platform.BlastRadius.Collect.{resource_ids, IsTidy}
use db_platform.BlastRadius.Rounds.{
  NodeStep, missing, present, analyze_nodes_returns, IsListed, IsRead, analyze_nodes_sound,
  analyze_nodes-IsTidy, analyze_nodes_covers,
}

-- A chain of at least one edge starts at a node.
from_node :
    (near far : Dependency → String) (g : DependencyGraph) (o : String)
    → ((e : Dependency) → Has e g.edges → Dict.has (near e) g.nodes ≡ true)
    → {id : String} {n : ℕ} {path : List Dependency} → Chain near far g.edges o id n path
    → 1 ≤ n
    → node g o ≢ none
from_node near far g o ends nothing h = absurd (omega arith)
from_node near far g o ends (link nothing e k near_is _ _) h =
    let (x, there) = has-get o g.nodes (rw near_is at (ends e k)) in
    unfold node in λ gone. cc (there, gone)
from_node near far g o ends (link (link c e k at t p) e' k' at' t' p') h =
    from_node near far g o ends (link c e k at t p) (omega arith)

no_analysis-IsTidy : IsTidy (record { seen = []; resources = [] })
unfolding is_seen
no_analysis-IsTidy = record { same = λ id. (λ h. cc, λ h. absurd h); once = tt }

-- The parts of an analysis that returned.
pub analyze_parts :
    (g : DependencyGraph) (m : ℕ) (ids : List String) (b : BlastRadius)
    → analyze g m ids ≡ some b
    → (s : Analysis) × (analyze_nodes g m ids no_analysis ≡ some s)
      × (b.direct_impact ≡ s.direct)
      × (b.downstream_impact ≡ s.downstream.resources)
      × (b.upstream_dependencies ≡ s.upstream.resources)
unfolding analyze summarise
analyze_parts g m ids b h =
    let (s, e) = analyze_nodes_returns g m ids no_analysis in
    let k = some-injective _ _ (rw (e, analyze) at h) in
    (
      s,
      e,
      ap (λ (x : BlastRadius). x.direct_impact) (sym k),
      ap (λ (x : BlastRadius). x.downstream_impact) (sym k),
      ap (λ (x : BlastRadius). x.upstream_dependencies) (sym k),
    )

-- On any graph and for any changed ids, `analyze` returns a blast radius.
pub analyze_returns :
    (g : DependencyGraph) (m : ℕ) (ids : List String)
    → (b : BlastRadius) × (analyze g m ids ≡ some b)
unfolding analyze
analyze_returns g m ids =
    let (s, e) = analyze_nodes_returns g m ids no_analysis in
    (summarise s.direct s.downstream.resources s.upstream.resources, rw (e, analyze))

module _ (g : DependencyGraph) (m : ℕ) (w : IsWellFormed g) where
  reads_downstream :
      IsRead g m Impact.downstream (λ s. s.downstream) (λ o. downstream_of g o m) (DependsOn g)
  reads_downstream = record {
    round = λ o s s' st. down o s s' st;
    sound = λ o r f e h. downstream_of_sound g o m r f w e h;
    shortest = λ o id n path r c least most e.
        let (_, (f, h, same, _)) = downstream_of_shortest g o id m n path r w c least most e in
        (f, h, same);
    from_node = λ o id n path c h.
        from_node (λ e. e.target_id) (λ e. e.source_id) g o (λ e k. (w.endpoints e k).1) c h;
  }
    where
      down :
          (o : String) (s s' : Analysis)
          → NodeStep g m o s s'
          → ((node g o ≡ none) × (s'.downstream ≡ s.downstream))
            ⊎ ((fs : List Found) × (downstream_of g o m ≡ some fs)
                × (s'.downstream ≡ collect Impact.downstream o fs s.downstream))
      down o s s' (missing gone e) = inl (gone, ap (λ (x : Analysis). x.downstream) e)
      down o s s' (present n found up there d u e) =
          inr (found, d, ap (λ (x : Analysis). x.downstream) e)

  reads_upstream :
      IsRead g m Impact.upstream (λ s. s.upstream) (λ o. upstream_of g o m) (NeededBy g)
  reads_upstream = record {
    round = λ o s s' st. up o s s' st;
    sound = λ o r f e h. upstream_of_sound g o m r f w e h;
    shortest = λ o id n path r c least most e.
        let (_, (f, h, same, _)) = upstream_of_shortest g o id m n path r w c least most e in
        (f, h, same);
    from_node = λ o id n path c h.
        from_node (λ e. e.source_id) (λ e. e.target_id) g o (λ e k. (w.endpoints e k).0) c h;
  }
    where
      up :
          (o : String) (s s' : Analysis)
          → NodeStep g m o s s'
          → ((node g o ≡ none) × (s'.upstream ≡ s.upstream))
            ⊎ ((fs : List Found) × (upstream_of g o m ≡ some fs)
                × (s'.upstream ≡ collect Impact.upstream o fs s.upstream))
      up o s s' (missing gone e) = inl (gone, ap (λ (x : Analysis). x.upstream) e)
      up o s s' (present n found over there d u e) =
          inr (over, u, ap (λ (x : Analysis). x.upstream) e)

-- In a well-formed graph, each resource that `analyze` lists as downstream depends on one of the
-- changed resources, another one than itself, by the path in `via`: a chain of `hops` edges, at
-- least one and at most `max_hops`. No resource is listed twice.
pub analyze_downstream_sound :
    (g : DependencyGraph) (m : ℕ) (ids : List String) (b : BlastRadius) (r : AffectedResource)
    → IsWellFormed g
    → analyze g m ids ≡ some b
    → Has r b.downstream_impact
    → IsListed (DependsOn g) m ids r × Distinct (resource_ids b.downstream_impact)
analyze_downstream_sound g m ids b r w e h =
    let (s, k, _, down, _) = analyze_parts g m ids b e in
    let reads = reads_downstream g m w in
    (
      analyze_nodes_sound g m _ _ _ _ reads ids ids no_analysis s k (λ o h. h) (λ r h. absurd h) r
          (rw down at h),
      rw down (analyze_nodes-IsTidy g m _ _ _ _ reads ids no_analysis s k no_analysis-IsTidy).once,
    )

-- In a well-formed graph, where a resource depends on another, changed one through a chain of one
-- to `max_hops` edges, `analyze` lists it as downstream.
pub analyze_downstream_complete :
    (g : DependencyGraph) (m : ℕ) (ids : List String) (b : BlastRadius) (origin id : String) (n : ℕ)
    (path : List Dependency)
    → IsWellFormed g
    → analyze g m ids ≡ some b
    → Has origin ids
    → DependsOn g origin id n path
    → 1 ≤ n
    → n ≤ m
    → id ≢ origin
    → Has id (resource_ids b.downstream_impact)
analyze_downstream_complete g m ids b origin id n path w e h c least most other =
    let (s, k, _, down, _) = analyze_parts g m ids b e in
    rw down (
      analyze_nodes_covers g m _ _ _ _ (reads_downstream g m w) ids origin id n path no_analysis s k
        no_analysis-IsTidy h c least most other)

-- In a well-formed graph, each resource that `analyze` lists as upstream is one that a changed
-- resource, another one, depends on by the path in `via`: a chain of `hops` edges, at least one and
-- at most `max_hops`. No resource is listed twice.
pub analyze_upstream_sound :
    (g : DependencyGraph) (m : ℕ) (ids : List String) (b : BlastRadius) (r : AffectedResource)
    → IsWellFormed g
    → analyze g m ids ≡ some b
    → Has r b.upstream_dependencies
    → IsListed (NeededBy g) m ids r × Distinct (resource_ids b.upstream_dependencies)
analyze_upstream_sound g m ids b r w e h =
    let (s, k, _, _, up) = analyze_parts g m ids b e in
    let reads = reads_upstream g m w in
    (
      analyze_nodes_sound g m _ _ _ _ reads ids ids no_analysis s k (λ o h. h) (λ r h. absurd h) r
          (rw up at h),
      rw up (analyze_nodes-IsTidy g m _ _ _ _ reads ids no_analysis s k no_analysis-IsTidy).once,
    )

-- In a well-formed graph, where a changed resource depends on another one through a chain of one
-- to `max_hops` edges, `analyze` lists that one as upstream.
pub analyze_upstream_complete :
    (g : DependencyGraph) (m : ℕ) (ids : List String) (b : BlastRadius) (origin id : String) (n : ℕ)
    (path : List Dependency)
    → IsWellFormed g
    → analyze g m ids ≡ some b
    → Has origin ids
    → NeededBy g origin id n path
    → 1 ≤ n
    → n ≤ m
    → id ≢ origin
    → Has id (resource_ids b.upstream_dependencies)
analyze_upstream_complete g m ids b origin id n path w e h c least most other =
    let (s, k, _, _, up) = analyze_parts g m ids b e in
    rw up (
      analyze_nodes_covers g m _ _ _ _ (reads_upstream g m w) ids origin id n path no_analysis s k
        no_analysis-IsTidy h c least most other)
