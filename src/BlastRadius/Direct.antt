-- ===== src/BlastRadius/Direct.antt =====
-- The direct impact of blast_radius/analyzer.py, and the count that is taken of it.
use mathlib.Core.List.{append-nil, append_assoc}
use mathlib.Core.Option.{some-injective}
use db_platform.Base.{
  ℕ, ◌+◌, String, ◌≡◌, refl, sym, ap, ◌∙◌, some, List, [], ◌∷◌, ◌++◌, arith, keep, length,
}
use db_platform.Base.Dict
use db_platform.Base.Dict.{has-get-none, has-get-some}
use db_platform.Graph.{DependencyGraph, AffectedResource, node}
use db_platform.Graph.WellFormed.{IsWellFormed}
use db_platform.BlastRadius.{
  BlastRadius, Analysis, add_direct, affected, analyze_nodes, no_analysis, analyze,
  total_affected_count,
}
use db_platform.BlastRadius.Collect.{resource_ids, resource_ids-append}
use db_platform.BlastRadius.Rounds.{NodeStep, missing, present, analyze_node_returns}
use db_platform.BlastRadius.Contents.{analyze_parts}

module _ (g : DependencyGraph) (m : ℕ) (w : IsWellFormed g) where
  abbrev listed : List String → List String
  listed = keep (λ i. Dict.has i g.nodes)

  step_direct :
      (o : String) (ids : List String) (s s' : Analysis)
      → NodeStep g m o s s'
      → resource_ids s'.direct ++ listed ids ≡ resource_ids s.direct ++ listed (o ∷ ids)
  unfolding node add_direct affected
  step_direct o ids s s' (missing gone e) = rw (e, has-get-none o g.nodes gone) refl
  step_direct o ids s s' (present n down up there _ _ e) =
      rw (e, has-get-some o n g.nodes there, resource_ids-append, w.keyed o n there, append_assoc)
        refl

  analyze_nodes_direct :
      (ids : List String) (s s' : Analysis)
      → analyze_nodes g m ids s ≡ some s'
      → resource_ids s'.direct ≡ resource_ids s.direct ++ listed ids
  unfolding analyze_nodes
  analyze_nodes_direct [] s s' e =
      sym (append-nil _ ∙ ap (λ (x : Analysis). resource_ids x.direct) (some-injective _ _ e))
  analyze_nodes_direct (o ∷ ids) s s' e =
      let (t, k, st) = analyze_node_returns g m o s in
      analyze_nodes_direct ids t s' (rw (k, analyze_nodes) at e) ∙ step_direct o ids s t st

length-resource_ids : (rs : List AffectedResource) → length (resource_ids rs) ≡ length rs
length-resource_ids [] = refl
length-resource_ids (r ∷ rs) = omega (arith, length-resource_ids rs)

-- In a well-formed graph the direct impact of a blast radius lists the given ids that are nodes, in
-- their order and as often as they are given, and `total_affected_count` counts each occurrence
-- beside the downstream resources.
pub analyze_direct :
    (g : DependencyGraph) (m : ℕ) (ids : List String) (b : BlastRadius)
    → IsWellFormed g
    → analyze g m ids ≡ some b
    → (resource_ids b.direct_impact ≡ keep (λ i. Dict.has i g.nodes) ids)
      × (total_affected_count b
          ≡ length (keep (λ i. Dict.has i g.nodes) ids) + length b.downstream_impact)
unfolding total_affected_count
analyze_direct g m ids b w e =
    let (s, k, direct, _, _) = analyze_parts g m ids b e in
    let at_ids = rw (← direct) at (analyze_nodes_direct g m w ids no_analysis s k) in
    (at_ids, omega (arith, length-resource_ids b.direct_impact, ap (λ l. length l) at_ids))
