-- ===== src/Dependencies/Total.antt =====
-- The graph builder of dependencies/graph_builder.py never adds an edge without its nodes.
use db_platform.Base.{
  String, true, List, [], ◌∷◌, ◌≡◌, refl, inl, inr, arith, Has, All, All-append, eq_iff,
}
use db_platform.Base.Dict
use db_platform.Base.Dict.{has-set_default, has-get-some}
use db_platform.Base.Frac.{IsUnit}
use db_platform.Base.Result.{ok}
use db_platform.Graph.{DependencyNode, Dependency, DependencyGraph, add_node}
use db_platform.Graph.WellFormed.{
  IsWellFormed, add_node-IsWellFormed, add_edge-IsWellFormed, add_edge_accepts, add_edge-parts,
}
use db_platform.Metadata.{TableMetadata, ViewMetadata, SchemaMetadata, DatabaseMetadata}
use db_platform.Dependencies.{table_node_id, view_node_id}
use db_platform.Dependencies.Collected.{
  each, link, table_node, view_node, add_schema_nodes, add_nodes,
}

abbrev pub HasNode : DependencyGraph → String → Type 0
HasNode g id = Dict.has id g.nodes ≡ true

-- A well-formed graph whose confidences are at most one.
pub record IsBuilt (g : DependencyGraph) : Type 0 where
  pub formed : IsWellFormed g
  pub confident : All (λ e. IsUnit e.confidence) g.edges

-- Every node of a graph is one of a later graph.
abbrev pub Extends : DependencyGraph → DependencyGraph → Type 0
Extends g g' = (id : String) → HasNode g id → HasNode g' id

pub HasNode-add_node :
    (g : DependencyGraph) (n : DependencyNode) (id : String)
    → HasNode g id
    → HasNode (add_node g n) id
unfolding add_node
HasNode-add_node g n id h = ground (arith, has-set_default n.id id n g.nodes)

pub HasNode-added : (g : DependencyGraph) (n : DependencyNode) → HasNode (add_node g n) n.id
unfolding add_node
HasNode-added g n = ground (arith, has-set_default n.id n.id n g.nodes, eq_iff n.id n.id)

pub add_node-IsBuilt :
    (g : DependencyGraph) (n : DependencyNode) → IsBuilt g → IsBuilt (add_node g n)
unfolding add_node
add_node-IsBuilt g n b = record {
  formed = add_node-IsWellFormed g n b.formed;
  confident = b.confident;
}

pub link-IsBuilt :
    (g : DependencyGraph) (e : Dependency)
    → IsBuilt g
    → HasNode g e.source_id
    → HasNode g e.target_id
    → IsUnit e.confidence
    → (g' : DependencyGraph) × (link e g ≡ ok g') × IsBuilt g' × Extends g g'
unfolding link
link-IsBuilt g e b source target unit =
    let (g', made) = (add_edge_accepts g e).1 (source, target) in
    let (_, _, nodes, edges, _, _) = add_edge-parts g g' e made in
    (
      g',
      rw (link, made) refl,
      record {
        formed = add_edge-IsWellFormed g g' e b.formed made;
        confident = rw edges (All-append _ g.edges (e ∷ []) b.confident (unit, tt));
      },
      λ id h. rw nodes h,
    )

-- A loop that raises nothing keeps what each round keeps, and reaches what a round makes.
pub each-keeps :
    {S A : Type 0} (step : A → S → S) (P : S → Type 0) (xs : List A)
    → ((a : A) (s : S) → P s → P (step a s))
    → (s : S) → P s
    → P (each step xs s)
each-keeps step P [] keeps s h = h
each-keeps step P (x ∷ xs) keeps s h = each-keeps step P xs keeps (step x s) (keeps x s h)

pub each-reaches :
    {S A : Type 0} (step : A → S → S) (Q : S → Type 0) (xs : List A) (a : A)
    → ((s : S) → Q (step a s))
    → ((b : A) (s : S) → Q s → Q (step b s))
    → Has a xs
    → (s : S) → Q (each step xs s)
each-reaches step Q [] a makes keeps m s = absurd m
each-reaches step Q (x ∷ xs) a makes keeps (inl e) s =
    each-keeps step Q xs keeps (step x s) (rw (← e) (makes s))
each-reaches step Q (x ∷ xs) a makes keeps (inr m) s =
    each-reaches step Q xs a makes keeps m (step x s)

-- The nodes of a schema.
module _ (database : String) where
  add_schema_nodes-keeps :
      (P : DependencyGraph → Type 0)
      → ((g : DependencyGraph) (n : DependencyNode) → P g → P (add_node g n))
      → (schema : SchemaMetadata) (g : DependencyGraph) → P g
      → P (add_schema_nodes database schema g)
  unfolding add_schema_nodes
  add_schema_nodes-keeps P keeps schema g h =
      each-keeps _ P schema.views (λ view s. keeps s (view_node database schema.name view)) _
        (each-keeps _ P schema.tables (λ table s. keeps s (table_node database schema.name table)) g
          h)

  pub add_nodes-keeps :
      (P : DependencyGraph → Type 0)
      → ((g : DependencyGraph) (n : DependencyNode) → P g → P (add_node g n))
      → (metadata : DatabaseMetadata) (g : DependencyGraph) → P g
      → P (add_nodes database metadata g)
  unfolding add_nodes
  add_nodes-keeps P keeps metadata g h =
      each-keeps (add_schema_nodes database) P metadata.schemas (add_schema_nodes-keeps P keeps) _
        (keeps g _ h)

  pub add_nodes-has :
      (metadata : DatabaseMetadata) (g : DependencyGraph) (schema : SchemaMetadata) (id : String)
      → Has schema metadata.schemas
      → ((s : DependencyGraph) → HasNode (add_schema_nodes database schema s) id)
      → HasNode (add_nodes database metadata g) id
  unfolding add_nodes
  add_nodes-has metadata g schema id m makes =
      each-reaches (add_schema_nodes database) (λ s. HasNode s id) metadata.schemas schema makes
        (add_schema_nodes-keeps (λ s. HasNode s id) (λ s n h. HasNode-add_node s n id h)) m _

  pub schema-table :
      (schema : SchemaMetadata) (table : TableMetadata) (g : DependencyGraph)
      → Has table schema.tables
      → HasNode (add_schema_nodes database schema g) (table_node_id database schema.name table.name)
  unfolding add_schema_nodes table_node
  schema-table schema table g m =
      each-keeps _ (λ s. HasNode s (table_node_id database schema.name table.name)) schema.views
        (λ view s h. HasNode-add_node s (view_node database schema.name view) _ h) _
        (each-reaches _ (λ s. HasNode s (table_node_id database schema.name table.name))
          schema.tables table (λ s. HasNode-added s (table_node database schema.name table))
          (λ b s h. HasNode-add_node s (table_node database schema.name b) _ h) m g)

  pub schema-view :
      (schema : SchemaMetadata) (view : ViewMetadata) (g : DependencyGraph)
      → Has view schema.views
      → HasNode (add_schema_nodes database schema g) (view_node_id database schema.name view.name)
  unfolding add_schema_nodes view_node
  schema-view schema view g m =
      each-reaches _ (λ s. HasNode s (view_node_id database schema.name view.name)) schema.views
        view (λ s. HasNode-added s (view_node database schema.name view))
        (λ b s h. HasNode-add_node s (view_node database schema.name b) _ h) m _
