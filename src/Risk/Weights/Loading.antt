-- ===== src/Risk/Weights/Loading.antt =====
-- The weights policy of risk/engine.py: what loading a policy ensures, and the risk levels.
use native.Mathlib.Nat.{le_of_mul-le-mul_left, mul-le-mul_right}
use db_platform.Base.{
  ◌*◌, ◌≤◌, ◌<◌, ◌≡◌, refl, ◌↔◌, true, Has, [], arith, leb→le, le→leb, inl, inr, Bool-cases,
}
use db_platform.Base.Frac.{Frac, whole, round_frac, eq_frac, le_frac}
use db_platform.Base.Number.{Number, plus, minus, le_number}
use db_platform.Base.Result.{Result, ok, err, ok-injective}
use mathlib.Core.Path.{subst}
use db_platform.Risk.{RiskFactorType, rank}
use db_platform.Risk.Weights.{
  LoadError, RawPolicy, RiskWeightsPolicy, Weights, read_factors, total_weight, load_policy,
  check_total, policy_of, risk_level_for,
}
use db_platform.Base.{left_empty}
use db_platform.Risk.Weights.Entries.{IsWeighted, IsLeftOut, read_factors-IsRead}

-- What a policy is that is loaded from a file: it has just the weights of the entries that count, it
-- lists just the types of the others, and its weights sum to 1.0 when rounded to four decimals.
pub record IsLoaded (raw : RawPolicy) (policy : RiskWeightsPolicy) : Type 0 where
  pub weighted :
      (t : RiskFactorType) (w : Frac) → Has (t, w) policy.weights ↔ IsWeighted raw.factors t w
  pub left_out : (t : RiskFactorType) → Has t policy.unimplemented ↔ IsLeftOut raw.factors t
  pub total_one : eq_frac (round_frac 4 (total_weight policy.weights)) (whole 1) ≡ true

load_parts :
    (raw : RawPolicy) (policy : RiskWeightsPolicy)
    → load_policy raw ≡ ok policy
    → (ws : Weights) × (read_factors raw.factors (record { weights = []; unimplemented = [] })
        ≡ ok ws)
      × (check_total raw ws ≡ ok policy)
unfolding load_policy
load_parts raw policy h = go _ refl h
  where
    go :
        (r : Result LoadError Weights)
        → read_factors raw.factors (record { weights = []; unimplemented = [] }) ≡ r
        → (elim r [ err e ↦ err e | ok ws ↦ check_total raw ws ]) ≡ ok policy
        → (ws : Weights) × (read_factors raw.factors (record { weights = []; unimplemented = [] })
            ≡ ok ws)
          × (check_total raw ws ≡ ok policy)
    go (ok ws) e k = (ws, e, k)
    go (err x) e k = cc

check_total_parts :
    (raw : RawPolicy) (ws : Weights) (policy : RiskWeightsPolicy)
    → check_total raw ws ≡ ok policy
    → (eq_frac (round_frac 4 (total_weight ws.weights)) (whole 1) ≡ true)
      × (policy_of raw ws ≡ policy)
unfolding check_total
check_total_parts raw ws policy h =
    elim (Bool-cases (eq_frac (round_frac 4 (total_weight ws.weights)) (whole 1))) [
      | inl fits ↦ (fits, ok-injective _ _ (rw (fits, check_total) at h))
      | inr wrong ↦ cc (rw (wrong, check_total) at h)
    ]

-- A policy that `load_policy` accepts has a weight for a type exactly where the file has an entry of
-- its name that is not marked as not implemented, with that weight, above 0; it lists a type as not
-- implemented exactly where the file has an entry of its name that does not count so; and its
-- weights sum to 1.0 when rounded to four decimals.
pub load_policy-IsLoaded :
    (raw : RawPolicy) (policy : RiskWeightsPolicy)
    → load_policy raw ≡ ok policy
    → IsLoaded raw policy
load_policy-IsLoaded raw policy h =
    let (ws, read, checked) = load_parts raw policy h in
    let (total, same) = check_total_parts raw ws policy checked in
    let i = read_factors-IsRead raw.factors (record { weights = []; unimplemented = [] }) ws read in
    subst (IsLoaded raw) same (record {
      weighted = λ t w. left_empty (i.weighted t w);
      left_out = λ t. left_empty (i.left_out t);
      total_one = total;
    })

-- `score <= threshold` for a smaller score
le_number_below :
    (a b : Frac) (t : Number)
    → 0 < b.den
    → a.num * b.den ≤ b.num * a.den
    → le_number (plus b) t ≡ true
    → le_number (plus a) t ≡ true
unfolding le_number
le_number_below a b (plus c) pos h k = le→leb _ _ (
    le_of_mul-le-mul_left {k = b.den}
      (omega (
        arith,
        mul-le-mul_right c.den h,
        mul-le-mul_right a.den (leb→le (b.num * c.den) (c.num * b.den) k),
      ))
      pos)
le_number_below a b (minus c) pos h k = grind arith

-- A higher score never has a lower risk level, whatever the thresholds are.
pub risk_level_for_monotone :
    (policy : RiskWeightsPolicy) (a b : Frac)
    → 0 < b.den
    → le_frac a b ≡ true
    → rank (risk_level_for policy a) ≤ rank (risk_level_for policy b)
unfolding risk_level_for rank
risk_level_for_monotone policy a b pos h =
    let le : a.num * b.den ≤ b.num * a.den = leb→le _ _ h in
    ground (
      arith,
      le_number_below a b policy.low_max pos le,
      le_number_below a b policy.medium_max pos le,
      le_number_below a b policy.high_max pos le,
    )
