-- ===== src/Examples/Radius.antt =====
-- The blast radius of a change to the orders table of the example.
use db_platform.Base.{
  ◌≡◌, ◌≢◌, refl, String, some, [], ◌∷◌, ◌+◌, arith, inl, inr, Has, Distinct, true, keep, length,
}
use db_platform.Base.Dict
use db_platform.Base.Frac.{ten_thousandths, whole, round_frac, round_half_even}
use db_platform.Base.Value.{truthy}
use db_platform.Base.Number.{is_zero}
use db_platform.Graph.{AffectedResource, Impact, Criticality, add_node, neighbours, node}
use db_platform.Graph.Traverse.{
  loop, expand, scan, relax, known_within, found, traverse, downstream_of, upstream_of, other_id,
}
use db_platform.Graph.Traverse.Exact.{DependsOn}
use db_platform.BlastRadius.{
  BlastRadius, Scope, analyze, analyze_nodes, analyze_node, add_direct, collect, offer, is_seen,
  affected, criticality_of, is_production_node, summarise, sorted_set, insert_sorted, names_where,
  database_names, estimate_scope, scope_by_count, estimate_confidence, sum_of_confidences,
  path_confidence, path_product, total_affected_count,
}
use db_platform.BlastRadius.Collect.{resource_ids}
use db_platform.BlastRadius.Rounds.{IsListed}
use db_platform.BlastRadius.Contents.{analyze_downstream_sound, analyze_downstream_complete}
use db_platform.BlastRadius.Bounds.{EdgesAreUnit}
use db_platform.BlastRadius.Direct.{analyze_direct}
use db_platform.Examples.{orders, checkout, storefront, reads, calls, shop}
use db_platform.Examples.Graphs.{shop-IsWellFormed, storefront_depends}

apart : ◌≢◌ {A = String} "api:storefront" "table:shop.public.orders"
apart h = cc

abbrev changed : AffectedResource
changed = record {
  resource = orders;
  impact = Impact.direct;
  hops = 0;
  criticality = Criticality.unknown;
  production = true;
  via = [];
}

abbrev reader : AffectedResource
reader = record {
  resource = checkout;
  impact = Impact.downstream;
  hops = 1;
  criticality = Criticality.critical;
  production = true;
  via = reads ∷ [];
}

abbrev caller : AffectedResource
caller = record {
  resource = storefront;
  impact = Impact.downstream;
  hops = 2;
  criticality = Criticality.unknown;
  production = true;
  via = reads ∷ calls ∷ [];
}

abbrev pub orders_radius : BlastRadius
orders_radius = record {
  direct_impact = changed ∷ [];
  downstream_impact = reader ∷ caller ∷ [];
  upstream_dependencies = [];
  affected_services = "checkout" ∷ [];
  affected_databases = "shop" ∷ [];
  affected_tables = "orders" ∷ [];
  affected_apis = "storefront" ∷ [];
  affected_data_pipelines = [];
  critical_dependencies = "checkout" ∷ [];
  estimated_scope = Scope.moderate;
  confidence = ten_thousandths 9000;
}

analyze_orders : analyze shop 4 ("table:shop.public.orders" ∷ []) ≡ some orders_radius
unfolding analyze analyze_nodes analyze_node add_direct collect offer is_seen affected
    criticality_of is_production_node truthy is_zero summarise sorted_set insert_sorted names_where
    database_names estimate_scope scope_by_count estimate_confidence sum_of_confidences
    path_confidence path_product round_frac round_half_even node downstream_of upstream_of traverse
    loop expand scan relax known_within found neighbours add_node Dict.get Dict.put Dict.set_default
    Dict.has other_id
analyze_orders = refl

abbrev storefront_radius : BlastRadius
storefront_radius = record {
  direct_impact = record caller { impact = Impact.direct; hops = 0; via = [] } ∷ [];
  downstream_impact = [];
  upstream_dependencies =
      record reader { impact = Impact.upstream; via = calls ∷ [] }
      ∷ record changed { impact = Impact.upstream; hops = 2; via = calls ∷ reads ∷ [] }
      ∷ [];
  affected_services = [];
  affected_databases = [];
  affected_tables = [];
  affected_apis = "storefront" ∷ [];
  affected_data_pipelines = [];
  critical_dependencies = [];
  estimated_scope = Scope.narrow;
  confidence = whole 1;
}

analyze_storefront : analyze shop 4 ("api:storefront" ∷ []) ≡ some storefront_radius
unfolding analyze analyze_nodes analyze_node add_direct collect offer is_seen affected
    criticality_of is_production_node truthy is_zero summarise sorted_set insert_sorted names_where
    database_names estimate_scope scope_by_count estimate_confidence sum_of_confidences
    path_confidence path_product round_frac round_half_even node downstream_of upstream_of traverse
    loop expand scan relax known_within found neighbours add_node Dict.get Dict.put Dict.set_default
    Dict.has other_id
analyze_storefront = refl

-- A table that two operations change is given twice.
abbrev pub twice_radius : BlastRadius
twice_radius = record orders_radius { direct_impact = changed ∷ changed ∷ [] }

pub analyze_twice :
    analyze shop 4 ("table:shop.public.orders" ∷ "table:shop.public.orders" ∷ [])
    ≡ some twice_radius
unfolding analyze analyze_nodes analyze_node add_direct collect offer is_seen affected
    criticality_of is_production_node truthy is_zero summarise sorted_set insert_sorted names_where
    database_names estimate_scope scope_by_count estimate_confidence sum_of_confidences
    path_confidence path_product round_frac round_half_even node downstream_of upstream_of traverse
    loop expand scan relax known_within found neighbours add_node Dict.get Dict.put Dict.set_default
    Dict.has other_id
analyze_twice = refl

analyze_downstream_sound_example :
    IsListed (DependsOn shop) 4 ("table:shop.public.orders" ∷ []) caller
    × Distinct (resource_ids orders_radius.downstream_impact)
analyze_downstream_sound_example =
    analyze_downstream_sound shop 4 ("table:shop.public.orders" ∷ []) orders_radius caller
      shop-IsWellFormed analyze_orders (inr (inl refl))

analyze_downstream_complete_example :
    Has "api:storefront" (resource_ids orders_radius.downstream_impact)
analyze_downstream_complete_example =
    analyze_downstream_complete shop 4 ("table:shop.public.orders" ∷ []) orders_radius
      "table:shop.public.orders" "api:storefront" 2 (reads ∷ calls ∷ []) shop-IsWellFormed
      analyze_orders (inl refl) storefront_depends (omega arith) (omega arith) apart

shop-EdgesAreUnit : EdgesAreUnit shop.edges
shop-EdgesAreUnit e (inl same) = rw same (record { pos = omega arith; le_one = omega arith })
shop-EdgesAreUnit e (inr (inl same)) = rw same (record { pos = omega arith; le_one = omega arith })
shop-EdgesAreUnit e (inr (inr none_left)) = absurd none_left

analyze_direct_example :
    (resource_ids twice_radius.direct_impact
      ≡ keep
          (λ i. Dict.has i shop.nodes)
          ("table:shop.public.orders" ∷ "table:shop.public.orders" ∷ []))
    × (total_affected_count twice_radius
        ≡ length (
            keep
              (λ i. Dict.has i shop.nodes)
              ("table:shop.public.orders" ∷ "table:shop.public.orders" ∷ []))
          + length twice_radius.downstream_impact)
analyze_direct_example =
    analyze_direct shop 4 ("table:shop.public.orders" ∷ "table:shop.public.orders" ∷ [])
      twice_radius shop-IsWellFormed analyze_twice
