-- ===== src/Graph/WellFormed.antt =====
-- What `add_node` and `add_edge` of domain/dependency.py keep of a graph.
use db_platform.Base.{
  String, ◌≡◌, refl, true, some, List, [], ◌∷◌, ◌++◌, arith, ◌==◌, eq_iff, if◌then◌else◌, Has,
  Has-append, keep, keep-append, inl, inr, ◌↔◌,
}
use db_platform.Base.Dict
use db_platform.Base.Dict.{get-put, get-set_default, has-set_default, has-get}
use db_platform.Graph.{
  Dependency, DependencyNode, DependencyGraph, Adjacency, empty_graph, add_node, add_edge, push,
  neighbours,
}

-- The index of an end of the edges: at each id the edges with that end, in the order of insertion.
abbrev pub IsIndex : (Dependency → String) → Adjacency → List Dependency → Type 0
IsIndex end_of index edges = (id : String) → neighbours index id ≡ keep (λ e. end_of e == id) edges

pub record IsWellFormed (g : DependencyGraph) : Type 0 where
  pub outgoing_exact : IsIndex (λ e. e.source_id) g.outgoing_index g.edges
  pub incoming_exact : IsIndex (λ e. e.target_id) g.incoming_index g.edges
  pub endpoints :
      (e : Dependency)
      → Has e g.edges
      → (Dict.has e.source_id g.nodes ≡ true) × (Dict.has e.target_id g.nodes ≡ true)
  pub keyed : (id : String) (n : DependencyNode) → Dict.get id g.nodes ≡ some n → n.id ≡ id

neighbours-push :
    (k j : String) (e : Dependency) (a : Adjacency)
    → neighbours (push k e a) j ≡ (if k == j then neighbours a j ++ e ∷ [] else neighbours a j)
unfolding neighbours push
neighbours-push k j e a = ground (arith, get-put k j (neighbours a k ++ e ∷ []) a, eq_iff k j)

push-IsIndex :
    (end_of : Dependency → String) (e : Dependency) (a : Adjacency) (edges : List Dependency)
    → IsIndex end_of a edges
    → IsIndex end_of (push (end_of e) e a) (edges ++ e ∷ [])
push-IsIndex end_of e a edges h id =
    ground
      (arith, neighbours-push (end_of e) id e a, keep-append (λ x. end_of x == id) edges e, h id)

-- The empty graph, as `__init__` makes it.
pub empty_graph-IsWellFormed : IsWellFormed empty_graph
unfolding neighbours Dict.get
empty_graph-IsWellFormed = record {
  outgoing_exact = λ id. refl;
  incoming_exact = λ id. refl;
  endpoints = λ e h. absurd h;
  keyed = λ id n h. cc;
}

-- A node that is added keeps the graph well formed, whether its id is new or not.
pub add_node-IsWellFormed :
    (g : DependencyGraph) (n : DependencyNode) → IsWellFormed g → IsWellFormed (add_node g n)
unfolding add_node
add_node-IsWellFormed g n h = record {
  outgoing_exact = h.outgoing_exact;
  incoming_exact = h.incoming_exact;
  endpoints = λ e m. ground (
    arith,
    h.endpoints e m,
    has-set_default n.id e.source_id n g.nodes,
    has-set_default n.id e.target_id n g.nodes,
  );
  keyed = λ id m e.
      ground
        (arith, get-set_default n.id id n g.nodes, h.keyed id m, h.keyed n.id m, eq_iff n.id id);
}

-- An edge is accepted exactly where both of its endpoints are nodes.
pub add_edge_accepts :
    (g : DependencyGraph) (e : Dependency)
    → ((g' : DependencyGraph) × (add_edge g e ≡ some g'))
      ↔ ((Dict.has e.source_id g.nodes ≡ true) × (Dict.has e.target_id g.nodes ≡ true))
unfolding add_edge
add_edge_accepts g e = (
  λ (g', h). ground arith,
  λ h. (
    record g {
      edges = g.edges ++ e ∷ [];
      outgoing_index = push e.source_id e g.outgoing_index;
      incoming_index = push e.target_id e g.incoming_index;
    },
    ground arith,
  ),
)

pub add_edge-parts :
    (g g' : DependencyGraph) (e : Dependency)
    → add_edge g e ≡ some g'
    → (Dict.has e.source_id g.nodes ≡ true)
      × (Dict.has e.target_id g.nodes ≡ true)
      × (g'.nodes ≡ g.nodes)
      × (g'.edges ≡ g.edges ++ e ∷ [])
      × (g'.outgoing_index ≡ push e.source_id e g.outgoing_index)
      × (g'.incoming_index ≡ push e.target_id e g.incoming_index)
unfolding add_edge
add_edge-parts g g' e h = ground arith

-- An edge that is accepted keeps the graph well formed.
pub add_edge-IsWellFormed :
    (g g' : DependencyGraph) (e : Dependency)
    → IsWellFormed g
    → add_edge g e ≡ some g'
    → IsWellFormed g'
add_edge-IsWellFormed g g' e w h =
    let (source, target, nodes, edges, out, into) = add_edge-parts g g' e h in
    record {
      outgoing_exact =
          rw (out, edges)
            (push-IsIndex (λ x. x.source_id) e g.outgoing_index g.edges w.outgoing_exact);
      incoming_exact =
          rw (into, edges)
            (push-IsIndex (λ x. x.target_id) e g.incoming_index g.edges w.incoming_exact);
      endpoints = λ x m. rw nodes (elim ((Has-append x g.edges (e ∷ [])).0 (rw edges at m)) [
        | inl old ↦ w.endpoints x old
        | inr (inl same) ↦ rw same (source, target)
        | inr (inr none_left) ↦ absurd none_left
      ]);
      keyed = rw nodes w.keyed;
    }
