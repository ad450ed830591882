-- ===== src/Dependencies/Edges.antt =====
-- The edges that `add_database_metadata` of dependencies/graph_builder.py adds: its loops end, and
-- keep what the nodes before them made.
use db_platform.Base.{String, ◌≡◌, refl, inl, inr, arith, Option-cases}
use db_platform.Base.Dict.{has-get-some}
use db_platform.Base.Frac.{IsUnit, whole}
use db_platform.Base.Result.{ok, for_each-keeps}
use db_platform.Graph.{Dependency, DependencyGraph, node}
use db_platform.Metadata.{ForeignKeyMetadata, DatabaseMetadata}
use db_platform.Dependencies.{table_node_id, view_node_id}
use db_platform.Dependencies.Collected.{
  link, collected_edge, foreign_key_edge, add_foreign_key, add_foreign_keys, referenced_id,
  add_view_reference, add_view_references, add_nodes, add_database_metadata,
}
use db_platform.Dependencies.Total.{
  HasNode, IsBuilt, Extends, HasNode-add_node, add_node-IsBuilt, link-IsBuilt, add_nodes-keeps,
  add_nodes-has, schema-table, schema-view,
}

-- A graph that is built from a former one.
abbrev pub Grown : DependencyGraph → DependencyGraph → Type 0
Grown g0 g = IsBuilt g × Extends g0 g

whole-IsUnit : IsUnit (whole 1)
whole-IsUnit = record { pos = omega arith; le_one = omega arith }

pub link-Grown :
    (g0 g : DependencyGraph) (e : Dependency)
    → Grown g0 g
    → HasNode g e.source_id
    → HasNode g e.target_id
    → IsUnit e.confidence
    → (g' : DependencyGraph) × (link e g ≡ ok g') × Grown g0 g'
link-Grown g0 g e grown source target unit =
    let (g', made, built, more) = link-IsBuilt g e grown.0 source target unit in
    (g', made, (built, λ id h. more id (grown.1 id h)))

module _ (database : String) (g0 : DependencyGraph) where
  add_foreign_key-Grown :
      (source : String)
      → HasNode g0 source
      → (fk : ForeignKeyMetadata) (g : DependencyGraph) → Grown g0 g
      → (g' : DependencyGraph) × (add_foreign_key database source fk g ≡ ok g') × Grown g0 g'
  unfolding add_foreign_key node
  add_foreign_key-Grown source h fk g grown =
      let target = table_node_id database fk.referenced_schema fk.referenced_table in
      elim (Option-cases (node g target)) [
        | inl gone ↦ (g, rw (add_foreign_key, gone) refl, grown)
        | inr (n, there) ↦
            let (g', made, after) =
              link-Grown g0 g (foreign_key_edge database source fk) grown (grown.1 source h)
                (has-get-some target n g.nodes there) whole-IsUnit in
            (g', rw (add_foreign_key, there) made, after)
      ]

  add_view_reference-Grown :
      (source : String)
      → HasNode g0 source
      → (ref : String) (g : DependencyGraph) → Grown g0 g
      → (g' : DependencyGraph) × (add_view_reference database source ref g ≡ ok g') × Grown g0 g'
  unfolding add_view_reference node
  add_view_reference-Grown source h ref g grown =
      elim (Option-cases (node g (referenced_id database ref g))) [
        | inl gone ↦ (g, rw (add_view_reference, gone) refl, grown)
        | inr (n, there) ↦
            let (g', made, after) =
              link-Grown g0 g (collected_edge source (referenced_id database ref g) "reads_from")
                grown (grown.1 source h)
                (has-get-some (referenced_id database ref g) n g.nodes there) whole-IsUnit in
            (g', rw (add_view_reference, there) made, after)
      ]

-- On a built graph `add_database_metadata` raises nothing, and builds a graph with the former nodes.
pub add_database_metadata-IsBuilt :
    (database : String) (metadata : DatabaseMetadata) (g : DependencyGraph)
    → IsBuilt g
    → (g' : DependencyGraph) × (add_database_metadata database metadata g ≡ ok g') × Grown g g'
unfolding add_database_metadata add_foreign_keys add_view_references
add_database_metadata-IsBuilt database metadata g built =
    let g0 = add_nodes database metadata g in
    let built0 = add_nodes-keeps database IsBuilt add_node-IsBuilt metadata g built in
    let (g1, keys_done, grown1) =
      for_each-keeps (add_foreign_keys database) (Grown g0) metadata.schemas
        (λ schema m s h.
          for_each-keeps _ (Grown g0) schema.tables
            (λ table n s1 h1.
              for_each-keeps _ (Grown g0) table.foreign_keys
                (λ fk _ s2 h2.
                  add_foreign_key-Grown database g0 (table_node_id database schema.name table.name)
                    (add_nodes-has database metadata g schema _ m
                      (λ x. schema-table database schema table x n))
                    fk s2 h2)
                s1 h1)
            s h)
        g0 (built0, λ id h. h) in
    let (g2, views_done, grown2) =
      for_each-keeps (add_view_references database) (Grown g0) metadata.schemas
        (λ schema m s h.
          for_each-keeps _ (Grown g0) schema.views
            (λ view n s1 h1.
              for_each-keeps _ (Grown g0) view.referenced_tables
                (λ ref _ s2 h2.
                  add_view_reference-Grown database g0 (view_node_id database schema.name view.name)
                    (add_nodes-has database metadata g schema _ m
                      (λ x. schema-view database schema view x n))
                    ref s2 h2)
                s1 h1)
            s h)
        g1 grown1 in
    (
      g2,
      rw (add_database_metadata, keys_done) views_done,
      (
        grown2.0,
        λ id h. grown2.1 id (
            add_nodes-keeps database (λ s. HasNode s id) (λ s n k. HasNode-add_node s n id k)
              metadata g h),
      ),
    )
