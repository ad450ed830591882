-- ===== src/Graph/Traverse/Exact.antt =====
-- `downstream_of` and `upstream_of` of domain/dependency.py against the dependencies of the graph.
use mathlib.Core.Path.{subst, ◌∙◌}
use mathlib.Core.Option.{some-injective}
use db_platform.Base.{
  ℕ, suc, ◌≤◌, String, ◌≡◌, sym, true, Option, some, List, [], ◌∷◌, ◌++◌, arith, ◌==◌, eq_iff, Has,
  Has-keep, All, Distinct, inl, inr, Option-cases,
}
use db_platform.Base.Dict
use db_platform.Base.Dict.{has-get}
use db_platform.Graph.{Dependency, DependencyNode, DependencyGraph, Adjacency}
use db_platform.Graph.WellFormed.{IsWellFormed, IsIndex}
use db_platform.Graph.Traverse.{
  Visit, Found, Direction, along_incoming, along_outgoing, other_id, enough, found, traverse,
  downstream_of, upstream_of,
}
use db_platform.Graph.Traverse.Ends.{loop_returns}
use db_platform.Graph.Traverse.Sound.{Walk, here, step, Reached, loop-IsSound}
use db_platform.Graph.Traverse.Shortest.{loop_reaches}

-- A chain of `n` edges of the graph from `origin` to `id`: each edge has its near end at the node
-- before it and its far end at the node after it.
pub data Chain (near far : Dependency → String) (edges : List Dependency) (origin : String)
    : String → ℕ → List Dependency → Type 0 where
  nothing : Chain near far edges origin origin 0 []
  link :
      {id to : String} {n : ℕ} {path path' : List Dependency}
      → Chain near far edges origin id n path
      → (e : Dependency) → Has e edges
      → near e ≡ id
      → far e ≡ to
      → path' ≡ path ++ e ∷ []
      → Chain near far edges origin to (suc n) path'

-- `id` depends on `origin` through `n` edges; `origin` depends on `id` through `n` edges.
abbrev pub DependsOn : DependencyGraph → String → String → ℕ → List Dependency → Type 0
DependsOn g = Chain (λ e. e.target_id) (λ e. e.source_id) g.edges

abbrev pub NeededBy : DependencyGraph → String → String → ℕ → List Dependency → Type 0
NeededBy g = Chain (λ e. e.source_id) (λ e. e.target_id) g.edges

module _ (near : Dependency → String) (d : Direction) (a : Adjacency) (edges : List Dependency)
    (origin : String) (index : IsIndex near a edges) where
  Walk→Chain :
      {id : String} {n : ℕ} {path : List Dependency}
      → Walk d a origin id n path
      → Chain near (other_id d) edges origin id n path
  Walk→Chain here = nothing
  Walk→Chain (step {id} w e k to p) =
      let (old, at) = (Has-keep e (λ x. near x == id) edges).0 (rw (index id) at k) in
      link (Walk→Chain w) e old ((eq_iff (near e) id).0 at) to p

  Chain→Walk :
      {id : String} {n : ℕ} {path : List Dependency}
      → Chain near (other_id d) edges origin id n path
      → Walk d a origin id n path
  Chain→Walk nothing = here
  Chain→Walk (link {id} c e k at to p) =
      step (Chain→Walk c) e
        (rw (index id) ((Has-keep e (λ x. near x == id) edges).1 (k, (eq_iff (near e) id).1 at))) to
        p

-- What is returned is what was visited, each node under its own id.
abbrev Keyed : List (String × DependencyNode) → Type 0
Keyed nodes = (id : String) (n : DependencyNode) → Dict.get id nodes ≡ some n → n.id ≡ id

found_sound :
    (P : String → Visit → Type 0) (nodes : List (String × DependencyNode))
    (visited : List (String × Visit)) (f : Found)
    → Keyed nodes
    → All (λ (x : String × Visit). P x.0 x.1) visited
    → Has f (found nodes visited)
    → P f.node.id (record { hops = f.hop_count; path = f.path })
unfolding found
found_sound P nodes [] f keyed h k = absurd k
found_sound P nodes ((id, v) ∷ rest) f keyed h k = elim (Option-cases (Dict.get id nodes)) [
  | inl missing ↦ found_sound P nodes rest f keyed h.1 (rw (missing, found) at k)
  | inr (n, present) ↦
      let k' : Has f (record { node = n; hop_count = v.hops; path = v.path } ∷ found nodes rest) =
        rw (present, found) at k in
      elim k' [
        | inl same ↦ rw (same, keyed id n present) h.0
        | inr later ↦ found_sound P nodes rest f keyed h.1 later
      ]
]

abbrev pub ids_of : List Found → List String
ids_of [] = []
ids_of (f ∷ fs) = f.node.id ∷ ids_of fs

found-keys :
    (nodes : List (String × DependencyNode)) (visited : List (String × Visit)) (id : String)
    → Keyed nodes
    → Has id (ids_of (found nodes visited))
    → Has id (Dict.keys visited)
unfolding found
found-keys nodes [] id keyed h = h
found-keys nodes ((j, v) ∷ rest) id keyed h = elim (Option-cases (Dict.get j nodes)) [
  | inl missing ↦ inr (found-keys nodes rest id keyed (rw (missing, found) at h))
  | inr (n, present) ↦ ground (arith, found-keys nodes rest id keyed, keyed j n present)
]

found-Distinct :
    (nodes : List (String × DependencyNode)) (visited : List (String × Visit))
    → Keyed nodes
    → Distinct (Dict.keys visited)
    → Distinct (ids_of (found nodes visited))
unfolding found
found-Distinct nodes [] keyed h = tt
found-Distinct nodes ((j, v) ∷ rest) keyed h = elim (Option-cases (Dict.get j nodes)) [
  | inl missing ↦ rw (missing, found) (found-Distinct nodes rest keyed h.1)
  | inr (n, present) ↦
      rw (present, found)
        (
          λ k. h.0 (found-keys nodes rest j keyed (rw (keyed j n present) at k)),
          found-Distinct nodes rest keyed h.1,
        )
]

found_complete :
    (nodes : List (String × DependencyNode)) (visited : List (String × Visit)) (id : String)
    (v : Visit) (n : DependencyNode)
    → Dict.get id nodes ≡ some n
    → Dict.get id visited ≡ some v
    → Has (record { node = n; hop_count = v.hops; path = v.path }) (found nodes visited)
unfolding found Dict.get
found_complete nodes [] id v n e k = cc
found_complete nodes ((j, w) ∷ rest) id v n e k =
    ground (arith, eq_iff j id, found_complete nodes rest id v n)

-- A found resource is at the end of a chain of `hop_count` edges, which `path` lists.
pub record IsFound (chain : String → ℕ → List Dependency → Type 0) (m : ℕ) (f : Found)
    : Type 0 where
  pub along : chain f.node.id f.hop_count f.path
  pub least : 1 ≤ f.hop_count
  pub most : f.hop_count ≤ m

-- The traversal returns, it reports each resource once, each by a chain of edges, and each
-- resource at the end of a chain of one to `m` edges with a hop count that is at most its length.
pub record IsExact (chain : String → ℕ → List Dependency → Type 0) (m : ℕ)
    (result : Option (List Found)) : Type 0 where
  pub list : List Found
  pub returned : result ≡ some list
  pub sound : (f : Found) → Has f list → IsFound chain m f
  pub once : Distinct (ids_of list)
  pub complete :
      (id : String) (n : ℕ) (path : List Dependency)
      → chain id n path
      → 1 ≤ n
      → n ≤ m
      → (f : Found) × Has f list × (f.node.id ≡ id) × (f.hop_count ≤ n)

module _ (g : DependencyGraph) (w : IsWellFormed g) (origin : String) (m : ℕ)
    (near : Dependency → String) (d : Direction) (a : Adjacency) (index : IsIndex near a g.edges)
    (ends : (e : Dependency) → Has e g.edges → Dict.has (other_id d e) g.nodes ≡ true) where
  end_node :
      {id : String} {n : ℕ} {path : List Dependency}
      → Chain near (other_id d) g.edges origin id n path
      → 1 ≤ n
      → (x : DependencyNode) × (Dict.get id g.nodes ≡ some x)
  end_node nothing h = absurd (omega arith)
  end_node (link {id} {to} c e k at end_is _) h = has-get to g.nodes (rw (← end_is) (ends e k))

  traverse-IsExact : IsExact (Chain near (other_id d) g.edges origin) m (traverse g origin d a m)
  unfolding traverse
  traverse-IsExact =
      let (t, e) = loop_returns d a m origin in
      let sound = loop-IsSound d a m origin (enough a m) t e in
      record {
        list = found g.nodes t.visited;
        returned = rw (e, traverse);
        sound = λ f k.
            let r : Reached d a m origin f.node.id (record { hops = f.hop_count; path = f.path }) =
              found_sound (Reached d a m origin) g.nodes t.visited f w.keyed sound.visits k in
            record {
              along = Walk→Chain near d a g.edges origin index r.walk;
              least = r.least;
              most = r.most;
            };
        once = found-Distinct g.nodes t.visited w.keyed sound.once;
        complete = λ id n path c least most.
            let (v, seen, less) =
              loop_reaches d a m origin (enough a m) t e
                (Chain→Walk near d a g.edges origin index c) least most in
            let (x, present) = end_node c least in
            (
              record { node = x; hop_count = v.hops; path = v.path },
              found_complete g.nodes t.visited id v x present seen,
              w.keyed id x present,
              less,
            );
      }

module _ (g : DependencyGraph) (origin : String) (m : ℕ) (w : IsWellFormed g) where
  downstream_of-IsExact : IsExact (DependsOn g origin) m (downstream_of g origin m)
  unfolding downstream_of other_id
  downstream_of-IsExact =
      traverse-IsExact g w origin m (λ e. e.target_id) along_incoming g.incoming_index
        w.incoming_exact (λ e k. (w.endpoints e k).0)

  upstream_of-IsExact : IsExact (NeededBy g origin) m (upstream_of g origin m)
  unfolding upstream_of other_id
  upstream_of-IsExact =
      traverse-IsExact g w origin m (λ e. e.source_id) along_outgoing g.outgoing_index
        w.outgoing_exact (λ e k. (w.endpoints e k).1)

-- On any graph and from any id, `downstream_of` and `upstream_of` return: the frontier runs empty.
pub traverse_returns :
    (g : DependencyGraph) (origin : String) (m : ℕ)
    → ((r : List Found) × (downstream_of g origin m ≡ some r))
      × ((r : List Found) × (upstream_of g origin m ≡ some r))
unfolding downstream_of upstream_of
traverse_returns g origin m =
    let (s, down) = loop_returns along_incoming g.incoming_index m origin in
    let (t, up) = loop_returns along_outgoing g.outgoing_index m origin in
    ((found g.nodes s.visited, rw (down, traverse)), (found g.nodes t.visited, rw (up, traverse)))

-- In a well-formed graph each resource that `downstream_of` reports depends on the node by the
-- reported path: a chain of `hop_count` edges, at least one and at most `max_hops`.
pub downstream_of_sound :
    (g : DependencyGraph) (origin : String) (m : ℕ) (r : List Found) (f : Found)
    → IsWellFormed g
    → downstream_of g origin m ≡ some r
    → Has f r
    → IsFound (DependsOn g origin) m f
downstream_of_sound g origin m r f w e h =
    let exact = downstream_of-IsExact g origin m w in
    exact.sound f (subst (Has f) (some-injective _ _ (sym e ∙ exact.returned)) h)

-- In a well-formed graph, where a resource depends on the node through a chain of one to
-- `max_hops` edges, `downstream_of` reports it once, with a hop count of at most that length.
pub downstream_of_shortest :
    (g : DependencyGraph) (origin id : String) (m n : ℕ) (path : List Dependency) (r : List Found)
    → IsWellFormed g
    → DependsOn g origin id n path
    → 1 ≤ n
    → n ≤ m
    → downstream_of g origin m ≡ some r
    → Distinct (ids_of r) × ((f : Found) × Has f r × (f.node.id ≡ id) × (f.hop_count ≤ n))
downstream_of_shortest g origin id m n path r w c least most e =
    let exact = downstream_of-IsExact g origin m w in
    let same = some-injective _ _ (sym exact.returned ∙ e) in
    let (f, h, at, less) = exact.complete id n path c least most in
    (subst (λ l. Distinct (ids_of l)) same exact.once, (f, subst (Has f) same h, at, less))

-- In a well-formed graph each resource that `upstream_of` reports is one that the node depends on
-- by the reported path: a chain of `hop_count` edges, at least one and at most `max_hops`.
pub upstream_of_sound :
    (g : DependencyGraph) (origin : String) (m : ℕ) (r : List Found) (f : Found)
    → IsWellFormed g
    → upstream_of g origin m ≡ some r
    → Has f r
    → IsFound (NeededBy g origin) m f
upstream_of_sound g origin m r f w e h =
    let exact = upstream_of-IsExact g origin m w in
    exact.sound f (subst (Has f) (some-injective _ _ (sym e ∙ exact.returned)) h)

-- In a well-formed graph, where the node depends on a resource through a chain of one to
-- `max_hops` edges, `upstream_of` reports it once, with a hop count of at most that length.
pub upstream_of_shortest :
    (g : DependencyGraph) (origin id : String) (m n : ℕ) (path : List Dependency) (r : List Found)
    → IsWellFormed g
    → NeededBy g origin id n path
    → 1 ≤ n
    → n ≤ m
    → upstream_of g origin m ≡ some r
    → Distinct (ids_of r) × ((f : Found) × Has f r × (f.node.id ≡ id) × (f.hop_count ≤ n))
upstream_of_shortest g origin id m n path r w c least most e =
    let exact = upstream_of-IsExact g origin m w in
    let same = some-injective _ _ (sym exact.returned ∙ e) in
    let (f, h, at, less) = exact.complete id n path c least most in
    (subst (λ l. Distinct (ids_of l)) same exact.once, (f, subst (Has f) same h, at, less))
