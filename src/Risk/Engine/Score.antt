-- ===== src/Risk/Engine/Score.antt =====
-- The overall score of risk/engine.py against the sum of the weights.
use native.Mathlib.Nat.{mul-le-mul_right}
use db_platform.Base.{
  ℕ, ◌+◌, ◌*◌, ◌^◌, ◌≤◌, ◌<◌, String, ◌≡◌, refl, ap, ◌∙◌, Bool, true, false, not, ◌&&◌, none, some,
  List, [], ◌∷◌, arith, any, keep, if◌then◌else◌, ◌==◌, eq_iff, All, inl, inr, Bool-cases, le→leb,
}
use db_platform.Base.Frac.{Frac, whole, add_frac, round_frac, le_frac}
use db_platform.Base.Frac.Bounds.{round_half_even-le}
use db_platform.Risk.{
  RiskFactorType, RiskFactor, FactorContext, value_of, same_factor, contribution,
}
use db_platform.Risk.Factors.{weight_of, compute_factors, factor_functions}
use db_platform.Risk.Factors.Bounds.{
  IsWeighed, types_of, implemented_types, is_weighted, compute_factors_exact,
}
use db_platform.Risk.Engine.{sum_of_contributions, overall_score}

-- A weight in ten-thousandths; and the sum of the weights, in ten-thousandths.
abbrev pub IsDecimal : RiskFactorType × Frac → Type 0
IsDecimal x = x.1.den ≡ 10000

abbrev pub total_num : List (RiskFactorType × Frac) → ℕ
total_num [] = 0
total_num ((_, w) ∷ weights) = w.num + total_num weights

abbrev num_of : List (RiskFactorType × Frac) → RiskFactorType → ℕ
num_of weights t = elim (weight_of weights t) [ none ↦ 0 | some w ↦ w.num ]

abbrev used : List (RiskFactorType × Frac) → List RiskFactorType → ℕ
used weights [] = 0
used weights (t ∷ ts) = num_of weights t + used weights ts

abbrev meets : String → List RiskFactorType → Bool
meets name ts = any (λ t. name == value_of t) ts

-- The types of a list are all different.
abbrev apart : List RiskFactorType → Bool
apart [] = true
apart (t ∷ ts) = not (meets (value_of t) ts) && apart ts

used-cons :
    (u : RiskFactorType) (w : Frac) (weights : List (RiskFactorType × Frac))
    (ts : List RiskFactorType)
    → apart ts ≡ true
    → used ((u, w) ∷ weights) ts ≤ (if meets (value_of u) ts then w.num else 0) + used weights ts
unfolding weight_of same_factor
used-cons u w weights [] h = omega arith
used-cons u w weights (t ∷ ts) h = elim (Bool-cases (value_of u == value_of t)) [
  | inl same ↦
      let equal : value_of u ≡ value_of t = (eq_iff (value_of u) (value_of t)).0 same in
      let over : meets (value_of u) ts ≡ meets (value_of t) ts = ap (λ n. meets n ts) equal in
      ground (arith, used-cons u w weights ts)
  | inr other ↦ ground (arith, used-cons u w weights ts)
]

-- Types that are all different use no more than all of the weights.
used-le-total :
    (weights : List (RiskFactorType × Frac)) (ts : List RiskFactorType)
    → apart ts ≡ true
    → used weights ts ≤ total_num weights
unfolding weight_of
used-le-total [] [] h = omega arith
used-le-total [] (t ∷ ts) h = ground (arith, used-le-total [] ts)
used-le-total ((u, w) ∷ weights) ts h =
    ground (arith, used-cons u w weights ts, used-le-total weights ts)

meets-keep :
    (p : RiskFactorType → Bool) (n : String) (ts : List RiskFactorType)
    → meets n ts ≡ false
    → meets n (keep p ts) ≡ false
meets-keep p n [] h = h
meets-keep p n (t ∷ ts) h = ground (arith, meets-keep p n ts)

apart-keep :
    (p : RiskFactorType → Bool) (ts : List RiskFactorType)
    → apart ts ≡ true
    → apart (keep p ts) ≡ true
apart-keep p [] h = h
apart-keep p (t ∷ ts) h = ground (arith, apart-keep p ts, meets-keep p (value_of t) ts)

weight_of-IsDecimal :
    (weights : List (RiskFactorType × Frac)) (t : RiskFactorType) (w : Frac)
    → All IsDecimal weights
    → weight_of weights t ≡ some w
    → w.den ≡ 10000
unfolding weight_of
weight_of-IsDecimal [] t w h e = cc
weight_of-IsDecimal ((u, v) ∷ weights) t w h e = elim (Bool-cases (same_factor u t)) [
  | inl here ↦ ground arith
  | inr later ↦ weight_of-IsDecimal weights t w h.1 (ground arith)
]

-- A sum that is at most 100 times n ten-thousandths.
record IsBelow (n : ℕ) (x : Frac) : Type 0 where
  pos : 0 < x.den
  below : x.num * 10000 ≤ 100 * n * x.den

contribution-le :
    (f : RiskFactor)
    → f.score ≤ 100
    → f.weight.den ≡ 10000
    → (contribution f).num ≤ 100 * f.weight.num
unfolding contribution round_frac
contribution-le f h e =
    round_half_even-le _ _ (100 * f.weight.num) (omega (arith, e))
      (rw e (omega (arith, mul-le-mul_right f.weight.num h)))

add-IsBelow :
    (m n : ℕ) (c s : Frac)
    → c.den ≡ 10000
    → c.num ≤ 100 * m
    → IsBelow n s
    → IsBelow (m + n) (add_frac c s)
add-IsBelow m n c s e h i = record {
  pos = rw e (omega (arith, i.pos));
  below = rw e (omega (arith, mul-le-mul_right s.den h, i.below));
}

sum_of_contributions-IsBelow :
    (weights : List (RiskFactorType × Frac)) (fs : List RiskFactor)
    → All IsDecimal weights
    → All (IsWeighed weights) fs
    → IsBelow (used weights (types_of fs)) (sum_of_contributions fs)
unfolding sum_of_contributions contribution round_frac
sum_of_contributions-IsBelow weights [] d h = record { pos = omega arith; below = omega arith }
sum_of_contributions-IsBelow weights (f ∷ fs) d (i, h) =
    rw (used, num_of, i.weighed)
      (add-IsBelow f.weight.num (used weights (types_of fs)) (contribution f)
        (sum_of_contributions fs) refl
        (contribution-le f i.bounded
          (weight_of-IsDecimal weights f.factor_type f.weight d i.weighed))
        (sum_of_contributions-IsBelow weights fs d h))

factor_types_apart : apart (implemented_types factor_functions) ≡ true
unfolding factor_functions value_of
factor_types_apart = refl

-- Where the weights are decimals of four places and sum to at most 1.0, the overall score of
-- every change is at most 100.
pub overall_score_at_most_100 :
    (ctx : FactorContext) (weights : List (RiskFactorType × Frac))
    → All IsDecimal weights
    → total_num weights ≤ 10000
    → le_frac (overall_score (compute_factors ctx weights)) (whole 100) ≡ true
unfolding overall_score round_frac
overall_score_at_most_100 ctx weights d h =
    let (types, weighed) = compute_factors_exact ctx weights in
    let factors = compute_factors ctx weights in
    let distinct : apart (types_of factors) ≡ true =
      ap apart types
      ∙ apart-keep (is_weighted weights) (implemented_types factor_functions) factor_types_apart in
    let i = sum_of_contributions-IsBelow weights factors d weighed in
    let fits : used weights (types_of factors) ≤ 10000 =
      omega (arith, used-le-total weights (types_of factors) distinct, h) in
    let sum = sum_of_contributions factors in
    le→leb _ _ (
      omega (
        arith,
        round_half_even-le (sum.num * 10 ^ 2) sum.den 10000 i.pos
            (omega (arith, i.below, mul-le-mul_right sum.den fits)),
      ))
