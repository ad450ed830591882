-- ===== src/Examples/Graphs.antt =====
-- The graph of the example: it is well formed, and what its traversals find.
use db_platform.Base.{◌≡◌, refl, some, List, [], ◌∷◌, ◌≤◌, arith, inl, inr, Has, Distinct}
use db_platform.Base.Dict
use db_platform.Base.Dict.{get, put, set_default, has}
use db_platform.Graph.{add_node, add_edge, push, neighbours, empty_graph}
use db_platform.Graph.WellFormed.{
  IsWellFormed, empty_graph-IsWellFormed, add_node-IsWellFormed, add_edge-IsWellFormed,
}
use db_platform.Graph.Traverse.{
  Found, loop, expand, scan, relax, known_within, found, traverse, downstream_of, upstream_of,
  other_id,
}
use db_platform.Graph.Traverse.Exact.{
  nothing, link, DependsOn, NeededBy, IsFound, ids_of, traverse_returns, downstream_of_sound,
  downstream_of_shortest,
}
use db_platform.Examples.{orders, checkout, storefront, reads, calls, with_nodes, with_reads, shop}

pub with_nodes-IsWellFormed : IsWellFormed with_nodes
with_nodes-IsWellFormed = add_node-IsWellFormed _ storefront (
    add_node-IsWellFormed _ checkout
      (add_node-IsWellFormed empty_graph orders empty_graph-IsWellFormed))

reads_accepted : add_edge with_nodes reads ≡ some with_reads
unfolding add_edge push neighbours add_node Dict.get Dict.put Dict.set_default Dict.has
reads_accepted = refl

calls_accepted : add_edge with_reads calls ≡ some shop
unfolding add_edge push neighbours add_node Dict.get Dict.put Dict.set_default Dict.has
calls_accepted = refl

pub shop-IsWellFormed : IsWellFormed shop
shop-IsWellFormed =
    add_edge-IsWellFormed with_reads shop calls
      (add_edge-IsWellFormed with_nodes with_reads reads with_nodes-IsWellFormed reads_accepted)
      calls_accepted

abbrev from_orders : List Found
from_orders =
    record { node = checkout; hop_count = 1; path = reads ∷ [] }
    ∷ record { node = storefront; hop_count = 2; path = reads ∷ calls ∷ [] }
    ∷ []

abbrev from_storefront : List Found
from_storefront =
    record { node = checkout; hop_count = 1; path = calls ∷ [] }
    ∷ record { node = orders; hop_count = 2; path = calls ∷ reads ∷ [] }
    ∷ []

downstream_of_orders : downstream_of shop "table:shop.public.orders" 4 ≡ some from_orders
unfolding downstream_of traverse loop expand scan relax known_within found neighbours add_node
    Dict.get Dict.put Dict.set_default Dict.has other_id
downstream_of_orders = refl

upstream_of_storefront : upstream_of shop "api:storefront" 4 ≡ some from_storefront
unfolding upstream_of traverse loop expand scan relax known_within found neighbours add_node
    Dict.get Dict.put Dict.set_default Dict.has other_id
upstream_of_storefront = refl

pub storefront_depends :
    DependsOn shop "table:shop.public.orders" "api:storefront" 2 (reads ∷ calls ∷ [])
storefront_depends =
    link (link nothing reads (inl refl) refl refl refl) calls (inr (inl refl)) refl refl refl

pub orders_needed : NeededBy shop "api:storefront" "table:shop.public.orders" 2 (calls ∷ reads ∷ [])
orders_needed =
    link (link nothing calls (inr (inl refl)) refl refl refl) reads (inl refl) refl refl refl

downstream_of_sound_example :
    IsFound
      (DependsOn shop "table:shop.public.orders")
      4
      (record { node = storefront; hop_count = 2; path = reads ∷ calls ∷ [] })
downstream_of_sound_example =
    downstream_of_sound shop "table:shop.public.orders" 4 from_orders
      (record { node = storefront; hop_count = 2; path = reads ∷ calls ∷ [] }) shop-IsWellFormed
      downstream_of_orders (inr (inl refl))

downstream_of_shortest_example :
    Distinct (ids_of from_orders)
    × ((f : Found) × Has f from_orders × (f.node.id ≡ "api:storefront") × (f.hop_count ≤ 2))
downstream_of_shortest_example =
    downstream_of_shortest shop "table:shop.public.orders" "api:storefront" 4 2 (reads ∷ calls ∷ [])
      from_orders shop-IsWellFormed storefront_depends (omega arith) (omega arith)
      downstream_of_orders

traverse_returns_example :
    ((r : List Found) × (downstream_of shop "service:checkout" 1 ≡ some r))
    × ((r : List Found) × (upstream_of shop "service:checkout" 1 ≡ some r))
traverse_returns_example = traverse_returns shop "service:checkout" 1
