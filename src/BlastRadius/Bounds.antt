-- ===== src/BlastRadius/Bounds.antt =====
-- The numbers of blast_radius/analyzer.py: the confidence, the scope and the counts.
use native.Mathlib.Nat.{mul-le-mul_right}
use db_platform.Base.{
  ℕ, suc, ◌*◌, ◌≤◌, ◌<◌, String, ◌≡◌, refl, Bool, true, false, not, some, List, [], ◌∷◌, arith, Has,
  Has-append, any, length, is_empty, inl, inr, Option-cases, ◌∙◌,
}
use mathlib.Core.Option.{some-injective}
use db_platform.Base.Frac.{Frac, whole, add_frac, mul_frac, IsUnit}
use db_platform.Base.Frac.Bounds.{mul_frac-IsUnit, round_frac-IsUnit}
use db_platform.Graph.{Dependency, DependencyGraph, AffectedResource}
use db_platform.Graph.WellFormed.{IsWellFormed}
use db_platform.Graph.Traverse.Exact.{Chain, nothing, link}
use db_platform.BlastRadius.{
  BlastRadius, Scope, path_product, path_confidence, sum_of_confidences, estimate_confidence,
  estimate_scope, insert_sorted, sorted_set, names_where, is_critical, analyze, summarise,
  analyze_nodes, no_analysis,
}
use db_platform.BlastRadius.Contents.{analyze_downstream_sound}

abbrev pub EdgesAreUnit : List Dependency → Type 0
EdgesAreUnit edges = (e : Dependency) → Has e edges → IsUnit e.confidence

path_product-IsUnit :
    (path : List Dependency) (c : Frac)
    → EdgesAreUnit path
    → IsUnit c
    → IsUnit (path_product path c)
unfolding path_product
path_product-IsUnit [] c h u = u
path_product-IsUnit (e ∷ path) c h u =
    path_product-IsUnit path (mul_frac c e.confidence) (λ x k. h x (inr k))
      (mul_frac-IsUnit c e.confidence u (h e (inl refl)))

path_confidence-IsUnit :
    (path : List Dependency) → EdgesAreUnit path → IsUnit (path_confidence path)
unfolding path_confidence
path_confidence-IsUnit path h =
    round_frac-IsUnit _ (path_product-IsUnit path (whole 1) h (omega arith))

-- A sum of n fractions that are at most one.
record IsSum (n : ℕ) (x : Frac) : Type 0 where
  pos : 0 < x.den
  le_count : x.num ≤ n * x.den

add-IsSum : (n : ℕ) (x y : Frac) → IsUnit x → IsSum n y → IsSum (suc n) (add_frac x y)
add-IsSum n x y u s = record {
  pos = grind arith;
  le_count = omega (arith, mul-le-mul_right y.den u.le_one, mul-le-mul_right x.den s.le_count);
}

sum_of_confidences-IsSum :
    (rs : List AffectedResource)
    → ((r : AffectedResource) → Has r rs → EdgesAreUnit r.via)
    → IsSum (length rs) (sum_of_confidences rs)
unfolding sum_of_confidences
sum_of_confidences-IsSum [] h = omega arith
sum_of_confidences-IsSum (r ∷ rs) h =
    add-IsSum (length rs) (path_confidence r.via) (sum_of_confidences rs)
      (path_confidence-IsUnit r.via (h r (inl refl)))
      (sum_of_confidences-IsSum rs (λ x k. h x (inr k)))

estimate_confidence-IsUnit :
    (rs : List AffectedResource)
    → ((r : AffectedResource) → Has r rs → EdgesAreUnit r.via)
    → IsUnit (estimate_confidence rs)
unfolding estimate_confidence
estimate_confidence-IsUnit [] h = omega arith
estimate_confidence-IsUnit (r ∷ rs) h =
    let s = sum_of_confidences-IsSum (r ∷ rs) h in
    round_frac-IsUnit _ (record { pos = grind (arith, s.pos); le_one = omega (arith, s.le_count) })

chain-edges :
    (near far : Dependency → String) (edges : List Dependency) (o : String) {id : String} {n : ℕ}
    {path : List Dependency}
    → Chain near far edges o id n path
    → (e : Dependency) → Has e path
    → Has e edges
chain-edges near far edges o nothing e h = absurd h
chain-edges near far edges o (link {path} c x k _ _ is) e h =
    elim ((Has-append e path (x ∷ [])).0 (rw is at h)) [
      | inl before ↦ chain-edges near far edges o c e before
      | inr (inl same) ↦ rw same k
      | inr (inr none_left) ↦ absurd none_left
    ]

confidence_parts :
    (g : DependencyGraph) (m : ℕ) (ids : List String) (b : BlastRadius)
    → analyze g m ids ≡ some b
    → (b.confidence ≡ estimate_confidence b.downstream_impact)
      × (b.estimated_scope
          ≡ estimate_scope
              (length b.downstream_impact)
              (not (is_empty (sorted_set (names_where is_critical b.downstream_impact)))))
      × (b.critical_dependencies ≡ sorted_set (names_where is_critical b.downstream_impact))
unfolding analyze summarise
confidence_parts g m ids b e = elim (Option-cases (analyze_nodes g m ids no_analysis)) [
  | inl gone ↦ cc (rw (gone, analyze) at e)
  | inr (s, k) ↦ rw (← some-injective _ _ (rw (k, analyze) at e)) (refl, refl, refl)
]

-- In a well-formed graph whose edges have confidences of at most one, so is the confidence of every
-- blast radius: a fraction with a positive denominator and a value of at most one.
pub analyze_confidence :
    (g : DependencyGraph) (m : ℕ) (ids : List String) (b : BlastRadius)
    → IsWellFormed g
    → EdgesAreUnit g.edges
    → analyze g m ids ≡ some b
    → IsUnit b.confidence
analyze_confidence g m ids b w h e =
    let (confidence, _, _) = confidence_parts g m ids b e in
    rw confidence (
      estimate_confidence-IsUnit b.downstream_impact (λ r k x i.
        let (listed, _) = analyze_downstream_sound g m ids b r w e k in
        h x (chain-edges _ _ g.edges listed.origin listed.along x i)))

insert_sorted-not_empty : (s : String) (ss : List String) → is_empty (insert_sorted s ss) ≡ false
unfolding insert_sorted
insert_sorted-not_empty s [] = refl
insert_sorted-not_empty s (t ∷ ss) = ground arith

is_empty-sorted_set : (ss : List String) → is_empty (sorted_set ss) ≡ is_empty ss
unfolding sorted_set
is_empty-sorted_set [] = refl
is_empty-sorted_set (s ∷ ss) = insert_sorted-not_empty s (sorted_set ss)

is_empty-names_where :
    (p : AffectedResource → Bool) (rs : List AffectedResource)
    → is_empty (names_where p rs) ≡ not (any p rs)
unfolding names_where
is_empty-names_where p [] = refl
is_empty-names_where p (r ∷ rs) = ground (arith, is_empty-names_where p rs)

-- The scope of a blast radius is that of the number of its downstream resources, with the bump
-- exactly where one of them is critical; the critical dependencies are listed exactly then.
pub analyze_scope :
    (g : DependencyGraph) (m : ℕ) (ids : List String) (b : BlastRadius)
    → analyze g m ids ≡ some b
    → (b.estimated_scope
        ≡ estimate_scope (length b.downstream_impact) (any is_critical b.downstream_impact))
      × (is_empty b.critical_dependencies ≡ not (any is_critical b.downstream_impact))
analyze_scope g m ids b e =
    let (_, scope, critical) = confidence_parts g m ids b e in
    let empty =
      is_empty-sorted_set (names_where is_critical b.downstream_impact)
      ∙ is_empty-names_where is_critical b.downstream_impact in
    (scope ∙ rw empty (ground arith), rw critical empty)

abbrev pub rank : Scope → ℕ
rank Scope.unknown = 0
rank Scope.narrow = 1
rank Scope.moderate = 2
rank Scope.wide = 3
rank Scope.extensive = 4

-- More downstream resources never make the scope smaller, nor does a critical one among them, and
-- with a critical one it is at least moderate.
pub estimate_scope_monotone :
    (a b : ℕ) (c : Bool)
    → a ≤ b
    → (rank (estimate_scope a c) ≤ rank (estimate_scope b c))
      × (rank (estimate_scope a false) ≤ rank (estimate_scope a true))
      × (2 ≤ rank (estimate_scope a true))
unfolding estimate_scope
estimate_scope_monotone a b c h = (ground arith, ground arith, ground arith)
