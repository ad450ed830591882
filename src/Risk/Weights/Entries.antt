-- ===== src/Risk/Weights/Entries.antt =====
-- What the loop of `RiskWeightsPolicy.__init__` of risk/engine.py reads of each entry of the file.
use db_platform.Base.{
  ◌<◌, String, ◌≡◌, refl, ◌≢◌, ◌↔◌, true, false, some, none, Bool, Option, eqb, ap, if◌then◌else◌,
  ◌==◌, eq_iff, some-injective, Has, Has-append, ◌⊎◌, sym, ◌∙◌, List, [], ◌∷◌, arith, inl, inr,
  Option-cases, Bool-cases,
}
use db_platform.Base.Frac.{Frac}
use db_platform.Base.Number.{Number, plus, minus}
use db_platform.Base.Result.{ok, ok-injective}
use mathlib.Core.Path.{subst}
use db_platform.Risk.{RiskFactorType, value_of, factor_named, all_factor_types}
use db_platform.Risk.Weights.{FactorSpec, Weights, kept_weight, add_spec, read_factors}

-- An entry that counts: it is not marked as not implemented, and its weight is above 0.
abbrev pub IsCounted : FactorSpec → Frac → Type 0
IsCounted spec w = (spec.implemented ≢ some false) × (spec.weight ≡ some (plus w)) × (0 < w.num)

positive_iff :
    (v w : Frac)
    → ((if eqb v.num 0 then none else some v) ≡ some w)
      ↔ ((◌≡◌ {A = Option Number} (some (plus v)) (some (plus w))) × (0 < w.num))
positive_iff v w = elim (Bool-cases (eqb v.num 0)) [
  | inl zero_there ↦ rw zero_there (
    (λ h. cc),
    (λ h.
        let same : v ≡ w = cc h.0 in
        let none_left : v.num ≡ 0 = ground arith in
        absurd (omega (arith, ap (λ (x : Frac). x.num) same, none_left, h.1))),
  )
  | inr more ↦ rw more (
    (λ h.
        let same : v ≡ w = cc h in
        let some_left : 0 < v.num = ground arith in
        (ap (λ x. some (plus x)) same, rw (← same) some_left)),
    (λ h. cc h.0),
  )
]

IsCounted-iff :
    (i : Option Bool) (x : Option Number) (w : Frac)
    → (kept_weight (record { weight = x; implemented = i }) ≡ some w)
      ↔ IsCounted (record { weight = x; implemented = i }) w
unfolding kept_weight
IsCounted-iff (some false) x w = ((λ h. cc), (λ h. absurd (h.0 refl)))
IsCounted-iff none none w = ((λ h. cc), (λ h. cc h.1))
IsCounted-iff none (some (minus v)) w = ((λ h. cc), (λ h. cc h.1))
IsCounted-iff none (some (plus v)) w = (
  (λ h. let (e, p) = (positive_iff v w).0 h in ((λ n. cc), e, p)),
  (λ h. (positive_iff v w).1 (h.1, h.2)),
)
IsCounted-iff (some true) none w = ((λ h. cc), (λ h. cc h.1))
IsCounted-iff (some true) (some (minus v)) w = ((λ h. cc), (λ h. cc h.1))
IsCounted-iff (some true) (some (plus v)) w = (
  (λ h. let (e, p) = (positive_iff v w).0 h in ((λ n. cc), e, p)),
  (λ h. (positive_iff v w).1 (h.1, h.2)),
)

kept_weight_iff : (spec : FactorSpec) (w : Frac) → (kept_weight spec ≡ some w) ↔ IsCounted spec w
kept_weight_iff spec w = IsCounted-iff spec.implemented spec.weight w

value_of-named : (t : RiskFactorType) → factor_named (value_of t) all_factor_types ≡ some t
unfolding factor_named value_of
value_of-named RiskFactorType.change_complexity = refl
value_of-named RiskFactorType.data_volume = refl
value_of-named RiskFactorType.table_size = refl
value_of-named RiskFactorType.lock_risk = refl
value_of-named RiskFactorType.index_impact = refl
value_of-named RiskFactorType.query_impact = refl
value_of-named RiskFactorType.dependency_count = refl
value_of-named RiskFactorType.criticality = refl
value_of-named RiskFactorType.production_usage = refl
value_of-named RiskFactorType.replication_impact = refl
value_of-named RiskFactorType.backward_compatibility = refl
value_of-named RiskFactorType.rollback_difficulty = refl
value_of-named RiskFactorType.deployment_frequency = refl
value_of-named RiskFactorType.historical_incidents = refl
value_of-named RiskFactorType.recent_change_activity = refl
value_of-named RiskFactorType.observability = refl
value_of-named RiskFactorType.test_coverage = refl

factor_named-value_of :
    (name : String) (ts : List RiskFactorType) (t : RiskFactorType)
    → factor_named name ts ≡ some t
    → value_of t ≡ name
unfolding factor_named
factor_named-value_of name [] t h = cc
factor_named-value_of name (u ∷ ts) t h = elim (Bool-cases (value_of u == name)) [
  | inl b ↦
      let same : u ≡ t = some-injective u t (rw (b, factor_named) at h) in
      rw (← same) ((eq_iff (value_of u) name).0 b)
  | inr b ↦ factor_named-value_of name ts t (rw (b, factor_named) at h)
]

-- An entry of the file for a type, with a weight that counts, or with none.
abbrev pub IsWeighted : List (String × FactorSpec) → RiskFactorType → Frac → Type 0
IsWeighted entries t w = (spec : FactorSpec) × Has (value_of t, spec) entries × IsCounted spec w

abbrev pub IsLeftOut : List (String × FactorSpec) → RiskFactorType → Type 0
IsLeftOut entries t =
    (spec : FactorSpec) × Has (value_of t, spec) entries × ((w : Frac) → ¬ (IsCounted spec w))

-- What `weights` and `unimplemented` hold after some entries, from what they held before.
pub record IsRead (entries : List (String × FactorSpec)) (before after : Weights) : Type 0 where
  pub weighted :
      (t : RiskFactorType) (w : Frac)
      → Has (t, w) after.weights ↔ (Has (t, w) before.weights ⊎ IsWeighted entries t w)
  pub left_out :
      (t : RiskFactorType)
      → Has t after.unimplemented ↔ (Has t before.unimplemented ⊎ IsLeftOut entries t)

only_entry :
    (key name : String) (s spec : FactorSpec)
    → Has {A = String × FactorSpec} (key, s) ((name, spec) ∷ [])
    → (key ≡ name) × (s ≡ spec)
only_entry key name s spec (inl e) = (ap (λ x. x.0) e, ap (λ x. x.1) e)
only_entry key name s spec (inr e) = absurd e

one_entry :
    (name : String) (u : RiskFactorType) (spec : FactorSpec) (ws : Weights)
    → factor_named name all_factor_types ≡ some u
    → IsRead ((name, spec) ∷ []) ws (add_spec u spec ws)
unfolding add_spec
one_entry name u spec ws h =
    let named : value_of u ≡ name = factor_named-value_of name all_factor_types u h in
    let is_u : (t : RiskFactorType) → value_of t ≡ name → t ≡ u = λ t e.
      some-injective t u
        (sym (value_of-named t) ∙ (ap (λ n. factor_named n all_factor_types) e ∙ h)) in
    elim (Option-cases (kept_weight spec)) [
      | inl dropped ↦
          let uncounted : (w : Frac) → ¬ (IsCounted spec w) =
            λ w c. cc ((kept_weight_iff spec w).1 c) in
          rw (dropped, add_spec)
            (record {
              weighted = λ t w. (
                (λ k. inl k),
                elim [
                  | inl k ↦ k
                  | inr (s, k, c) ↦ absurd (
                      uncounted w
                        (subst (λ x. IsCounted x w) (only_entry (value_of t) name s spec k).1 c))
                ],
              );
              left_out = λ t. (
                (λ k. elim ((Has-append t ws.unimplemented (u ∷ [])).0 k) [
                  | inl old ↦ inl old
                  | inr (inl e) ↦
                      inr (spec, inl (ap (λ n. (n, spec)) (ap value_of e ∙ named)), uncounted)
                  | inr (inr x) ↦ absurd x
                ]),
                elim [
                  | inl old ↦ (Has-append t ws.unimplemented (u ∷ [])).1 (inl old)
                  | inr (s, k, c) ↦
                      (Has-append t ws.unimplemented (u ∷ [])).1
                        (inr (inl (is_u t (only_entry (value_of t) name s spec k).0)))
                ],
              );
            })
      | inr (v, kept) ↦
          rw (kept, add_spec)
            (record {
              weighted = λ t w. (
                (λ k. elim ((Has-append (t, w) ws.weights ((u, v) ∷ [])).0 k) [
                  | inl old ↦ inl old
                  | inr (inl e) ↦ inr (
                    spec,
                    inl (ap (λ n. (n, spec)) (ap (λ x. value_of x.0) e ∙ named)),
                    (kept_weight_iff spec w).0 (kept ∙ ap (λ x. some x.1) (sym e)),
                  )
                  | inr (inr x) ↦ absurd x
                ]),
                elim [
                  | inl old ↦ (Has-append (t, w) ws.weights ((u, v) ∷ [])).1 (inl old)
                  | inr (s, k, c) ↦
                      let same = only_entry (value_of t) name s spec k in
                      let counts = subst (λ x. IsCounted x w) same.1 c in
                      let weight_is : w ≡ v =
                        some-injective w v (sym ((kept_weight_iff spec w).1 counts) ∙ kept) in
                      (Has-append (t, w) ws.weights ((u, v) ∷ [])).1
                        (inr (inl (rw (is_u t same.0, weight_is) refl)))
                ],
              );
              left_out = λ t. (
                (λ k. inl k),
                elim [
                  | inl k ↦ k
                  | inr (s, k, c) ↦ absurd (
                      c v (
                        subst (λ x. IsCounted x v) (sym (only_entry (value_of t) name s spec k).1)
                          ((kept_weight_iff spec v).0 kept)))
                ],
              );
            })
    ]

-- An entry of a key that a property holds of.
abbrev Entry : (FactorSpec → Type 0) → String → List (String × FactorSpec) → Type 0
Entry P key entries = (spec : FactorSpec) × Has (key, spec) entries × P spec

Entry-more :
    (P : FactorSpec → Type 0) (key : String) (e : String × FactorSpec)
    (entries : List (String × FactorSpec)) {X Y Z : Type 0}
    → X ↔ (Y ⊎ Entry P key (e ∷ []))
    → Z ↔ (X ⊎ Entry P key entries)
    → Z ↔ (Y ⊎ Entry P key (e ∷ entries))
Entry-more P key e entries one rest = (
  λ z. elim (rest.0 z) [
    | inr (s, k, c) ↦ inr (s, inr k, c)
    | inl x ↦ elim (one.0 x) [
      | inl y ↦ inl y
      | inr (s, inl k, c) ↦ inr (s, inl k, c)
      | inr (s, inr k, c) ↦ absurd k
    ]
  ],
  elim [
    | inl y ↦ rest.1 (inl (one.1 (inl y)))
    | inr (s, inl k, c) ↦ rest.1 (inl (one.1 (inr (s, inl k, c))))
    | inr (s, inr k, c) ↦ rest.1 (inr (s, k, c))
  ],
)

pub read_factors-IsRead :
    (entries : List (String × FactorSpec)) (ws ws' : Weights)
    → read_factors entries ws ≡ ok ws'
    → IsRead entries ws ws'
unfolding read_factors
read_factors-IsRead [] ws ws' e = subst (IsRead [] ws) (ok-injective ws ws' e) (record {
  weighted = λ t w. ((λ k. inl k), elim [ inl k ↦ k | inr (s, k, c) ↦ absurd k ]);
  left_out = λ t. ((λ k. inl k), elim [ inl k ↦ k | inr (s, k, c) ↦ absurd k ]);
})
read_factors-IsRead ((name, spec) ∷ entries) ws ws' e =
    elim (Option-cases (factor_named name all_factor_types)) [
      | inl bad ↦ cc (rw (bad, read_factors) at e)
      | inr (u, good) ↦
          let one = one_entry name u spec ws good in
          let later =
            read_factors-IsRead entries (add_spec u spec ws) ws' (rw (good, read_factors) at e) in
          record {
            weighted = λ t w.
                Entry-more (λ s. IsCounted s w) (value_of t) (name, spec) entries (one.weighted t w)
                  (later.weighted t w);
            left_out = λ t.
                Entry-more (λ s. (w : Frac) → ¬ (IsCounted s w)) (value_of t) (name, spec) entries
                  (one.left_out t) (later.left_out t);
          }
    ]
