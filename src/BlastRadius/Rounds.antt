-- ===== src/BlastRadius/Rounds.antt =====
-- The loop of `analyze` of blast_radius/analyzer.py over the changed resources, for a list that it
-- fills from a traversal.
use mathlib.Core.Path.{subst}
use mathlib.Core.Option.{some-injective}
use db_platform.Base.{
  ℕ, ◌≤◌, String, ◌≡◌, ◌≢◌, refl, sym, Option, none, some, List, [], ◌∷◌, Has, inl, inr, ◌⊎◌,
  Option-cases, ◌∙◌,
}
use db_platform.Graph.{Dependency, DependencyNode, DependencyGraph, AffectedResource, Impact, node}
use db_platform.Graph.Traverse.{Found, downstream_of, upstream_of}
use db_platform.Graph.Traverse.Exact.{IsFound, traverse_returns}
use db_platform.BlastRadius.{
  Collected, Analysis, affected, collect, add_direct, analyze_node, analyze_nodes,
}
use db_platform.BlastRadius.Collect.{
  resource_ids, IsTidy, collect-IsTidy, collect-keeps, collect-covers, collect-only,
}

-- A round for an id that is no node, and a round for a node.
pub data NodeStep (g : DependencyGraph) (m : ℕ) (o : String) (s s' : Analysis) : Type 0 where
  missing : node g o ≡ none → s' ≡ s → NodeStep g m o s s'
  present :
      (n : DependencyNode) (down up : List Found)
      → node g o ≡ some n
      → downstream_of g o m ≡ some down
      → upstream_of g o m ≡ some up
      → s' ≡ record {
        direct = add_direct n s.direct;
        downstream = collect Impact.downstream o down s.downstream;
        upstream = collect Impact.upstream o up s.upstream;
      }
      → NodeStep g m o s s'

module _ (g : DependencyGraph) (m : ℕ) where
  after : DependencyNode → List Found → List Found → String → Analysis → Analysis
  after n down up o s = record {
    direct = add_direct n s.direct;
    downstream = collect Impact.downstream o down s.downstream;
    upstream = collect Impact.upstream o up s.upstream;
  }

  pub analyze_node_returns :
      (o : String) (s : Analysis)
      → (s' : Analysis) × (analyze_node g m o s ≡ some s') × NodeStep g m o s s'
  unfolding analyze_node after
  analyze_node_returns o s = elim (Option-cases (node g o)) [
    | inl none_there ↦ (s, rw (none_there, analyze_node), missing none_there refl)
    | inr (n, there) ↦
        let ((down, e), (up, k)) = traverse_returns g o m in
        (after n down up o s, rw (there, e, k, analyze_node) refl, present n down up there e k refl)
  ]

  pub analyze_nodes_returns :
      (ids : List String) (s : Analysis) → (s' : Analysis) × (analyze_nodes g m ids s ≡ some s')
  unfolding analyze_nodes
  analyze_nodes_returns [] s = (s, refl)
  analyze_nodes_returns (o ∷ ids) s =
      let (t, e, _) = analyze_node_returns o s in
      let (s', k) = analyze_nodes_returns ids t in (s', rw (e, analyze_nodes) k)

  node_step : (o : String) (s s' : Analysis) → analyze_node g m o s ≡ some s' → NodeStep g m o s s'
  node_step o s s' e =
      let (t, k, st) = analyze_node_returns o s in
      subst (NodeStep g m o s) (some-injective _ _ (sym k ∙ e)) st

-- A resource that a changed one is related to: listed with the hop count and the path of the
-- relation, for a changed resource other than itself.
pub record IsListed (rel : String → String → ℕ → List Dependency → Type 0) (m : ℕ)
    (ids : List String) (r : AffectedResource) : Type 0 where
  pub origin : String
  pub changed : Has origin ids
  pub along : rel origin r.resource.id r.hops r.via
  pub least : 1 ≤ r.hops
  pub most : r.hops ≤ m
  pub apart : r.resource.id ≢ origin

-- One direction of the analysis: the list that it fills, its traversal and the relation that this
-- computes.
pub record IsRead (g : DependencyGraph) (m : ℕ) (impact : Impact) (list_of : Analysis → Collected)
    (search : String → Option (List Found)) (rel : String → String → ℕ → List Dependency → Type 0)
    : Type 0 where
  pub round :
      (o : String) (s s' : Analysis)
      → NodeStep g m o s s'
      → ((node g o ≡ none) × (list_of s' ≡ list_of s))
        ⊎ ((fs : List Found) × (search o ≡ some fs)
            × (list_of s' ≡ collect impact o fs (list_of s)))
  pub sound :
      (o : String) (r : List Found) (f : Found) → search o ≡ some r → Has f r → IsFound (rel o) m f
  pub shortest :
      (o id : String) (n : ℕ) (path : List Dependency) (r : List Found)
      → rel o id n path
      → 1 ≤ n
      → n ≤ m
      → search o ≡ some r
      → (f : Found) × Has f r × (f.node.id ≡ id)
  pub from_node :
      (o id : String) (n : ℕ) (path : List Dependency) → rel o id n path → 1 ≤ n → node g o ≢ none

module _ (g : DependencyGraph) (m : ℕ) (impact : Impact) (list_of : Analysis → Collected)
    (search : String → Option (List Found)) (rel : String → String → ℕ → List Dependency → Type 0)
    (reads : IsRead g m impact list_of search rel) where
  open reads use {round, sound, shortest, from_node}

  round-IsTidy :
      (o : String) (s s' : Analysis)
      → NodeStep g m o s s'
      → IsTidy (list_of s)
      → IsTidy (list_of s')
  round-IsTidy o s s' st t = elim (round o s s' st) [
    | inl (_, e) ↦ rw e t
    | inr (fs, _, e) ↦ rw e (collect-IsTidy impact o fs (list_of s) t)
  ]

  round-keeps :
      (o id : String) (s s' : Analysis)
      → NodeStep g m o s s'
      → Has id (resource_ids (list_of s).resources)
      → Has id (resource_ids (list_of s').resources)
  round-keeps o id s s' st h = elim (round o s s' st) [
    | inl (_, e) ↦ rw e h
    | inr (fs, _, e) ↦ rw e (collect-keeps impact o fs (list_of s) id h)
  ]

  found-IsListed :
      (o : String) (f : Found) (ids : List String) (r : AffectedResource)
      → Has o ids
      → IsFound (rel o) m f
      → f.node.id ≢ o
      → r ≡ affected impact f
      → IsListed rel m ids r
  unfolding affected
  found-IsListed o f ids r h i other e = subst (IsListed rel m ids) (sym e) (record {
    origin = o;
    changed = h;
    along = i.along;
    least = i.least;
    most = i.most;
    apart = other;
  })

  round_sound :
      (o : String) (ids : List String) (s s' : Analysis)
      → NodeStep g m o s s'
      → Has o ids
      → ((r : AffectedResource) → Has r (list_of s).resources → IsListed rel m ids r)
      → (r : AffectedResource) → Has r (list_of s').resources
      → IsListed rel m ids r
  round_sound o ids s s' st h before r k = elim (round o s s' st) [
    | inl (_, e) ↦ before r (rw e at k)
    | inr (fs, found, e) ↦ elim (collect-only impact o fs (list_of s) r (rw e at k)) [
      | inl old ↦ before r old
      | inr (f, among, other, is) ↦ found-IsListed o f ids r h (sound o fs f found among) other is
    ]
  ]

  round_covers :
      (o id : String) (n : ℕ) (path : List Dependency) (s s' : Analysis)
      → NodeStep g m o s s'
      → IsTidy (list_of s)
      → rel o id n path
      → 1 ≤ n
      → n ≤ m
      → id ≢ o
      → Has id (resource_ids (list_of s').resources)
  round_covers o id n path s s' st t c least most other = elim (round o s s' st) [
    | inl (no_node, _) ↦ absurd (from_node o id n path c least no_node)
    | inr (fs, found, e) ↦
        let (f, among, at) = shortest o id n path fs c least most found in
        rw e (
          subst (λ i. Has i (resource_ids (collect impact o fs (list_of s)).resources)) at
            (collect-covers impact o fs (list_of s) f t among (λ k. other (sym at ∙ k))))
  ]

  pub analyze_nodes_sound :
      (todo ids : List String) (s s' : Analysis)
      → analyze_nodes g m todo s ≡ some s'
      → ((o : String) → Has o todo → Has o ids)
      → ((r : AffectedResource) → Has r (list_of s).resources → IsListed rel m ids r)
      → (r : AffectedResource) → Has r (list_of s').resources
      → IsListed rel m ids r
  unfolding analyze_nodes
  analyze_nodes_sound [] ids s s' e all before =
      subst (λ x. (r : AffectedResource) → Has r (list_of x).resources → IsListed rel m ids r)
        (some-injective _ _ e) before
  analyze_nodes_sound (o ∷ todo) ids s s' e all before =
      let (t, k, st) = analyze_node_returns g m o s in
      analyze_nodes_sound todo ids t s' (rw (k, analyze_nodes) at e) (λ x h. all x (inr h))
        (round_sound o ids s t st (all o (inl refl)) before)

  pub analyze_nodes-IsTidy :
      (todo : List String) (s s' : Analysis)
      → analyze_nodes g m todo s ≡ some s'
      → IsTidy (list_of s)
      → IsTidy (list_of s')
  unfolding analyze_nodes
  analyze_nodes-IsTidy [] s s' e t = subst (λ x. IsTidy (list_of x)) (some-injective _ _ e) t
  analyze_nodes-IsTidy (o ∷ todo) s s' e t =
      let (u, k, st) = analyze_node_returns g m o s in
      analyze_nodes-IsTidy todo u s' (rw (k, analyze_nodes) at e) (round-IsTidy o s u st t)

  analyze_nodes_keeps :
      (todo : List String) (id : String) (s s' : Analysis)
      → analyze_nodes g m todo s ≡ some s'
      → Has id (resource_ids (list_of s).resources)
      → Has id (resource_ids (list_of s').resources)
  unfolding analyze_nodes
  analyze_nodes_keeps [] id s s' e h =
      subst (λ x. Has id (resource_ids (list_of x).resources)) (some-injective _ _ e) h
  analyze_nodes_keeps (o ∷ todo) id s s' e h =
      let (u, k, st) = analyze_node_returns g m o s in
      analyze_nodes_keeps todo id u s' (rw (k, analyze_nodes) at e) (round-keeps o id s u st h)

  pub analyze_nodes_covers :
      (todo : List String) (o id : String) (n : ℕ) (path : List Dependency) (s s' : Analysis)
      → analyze_nodes g m todo s ≡ some s'
      → IsTidy (list_of s)
      → Has o todo
      → rel o id n path
      → 1 ≤ n
      → n ≤ m
      → id ≢ o
      → Has id (resource_ids (list_of s').resources)
  unfolding analyze_nodes
  analyze_nodes_covers [] o id n path s s' e t h c least most other = absurd h
  analyze_nodes_covers (x ∷ todo) o id n path s s' e t (inl is) c least most other =
      let (u, k, st) = analyze_node_returns g m x s in
      analyze_nodes_keeps todo id u s' (rw (k, analyze_nodes) at e) (
        round_covers x id n path s u st t (subst (λ y. rel y id n path) is c) least most
          (λ y. other (y ∙ sym is)))
  analyze_nodes_covers (x ∷ todo) o id n path s s' e t (inr h) c least most other =
      let (u, k, st) = analyze_node_returns g m x s in
      analyze_nodes_covers todo o id n path u s' (rw (k, analyze_nodes) at e)
        (round-IsTidy x s u st t) h c least most other
