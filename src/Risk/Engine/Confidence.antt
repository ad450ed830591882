-- ===== src/Risk/Engine/Confidence.antt =====
-- `_confidence_and_uncertainty` of risk/engine.py: the bounds of the confidence, and what is listed.
use mathlib.Core.List.{append-nil}
use db_platform.Base.{
  ℕ, ◌≤◌, ◌≡◌, refl, Bool, true, false, not, ◌&&◌, Option, none, some, List, [], ◌∷◌, ◌++◌, arith,
  eqb, if◌then◌else◌, keep, length, is_empty, ◌↔◌, inl, inr, Bool-cases, String,
}
use db_platform.Base.Frac.{Frac, whole, percent, le_frac, IsUnit}
use db_platform.Base.Frac.Bounds.{mul_frac-IsUnit, round_frac-IsUnit}
use db_platform.Base.Number.{Number, plus, lt_number}
use db_platform.Change.{DatabaseChangeOperation}
use db_platform.Change.Kinds.{is_unknown}
use db_platform.BlastRadius.{BlastRadius}
use db_platform.Risk.{RiskFactorType, FactorContext}
use db_platform.Risk.Engine.{
  Doubt, Uncertainty, unknown_penalty, missing_tables, doubt_operations, doubt_tables, doubt_graph,
  doubt_factors, confidence_and_uncertainty,
}
use db_platform.Risk.Weights.{RiskWeightsPolicy}

percent-IsUnit : (n : ℕ) → n ≤ 100 → IsUnit (percent n)
percent-IsUnit n h = record { pos = omega arith; le_one = h }

unknown_penalty-IsUnit : (n : ℕ) → IsUnit (unknown_penalty n)
unfolding unknown_penalty
unknown_penalty-IsUnit n = percent-IsUnit _ (ground arith)

doubt_operations-IsUnit :
    (ops : List DatabaseChangeOperation) (d : Doubt)
    → IsUnit d.confidence
    → IsUnit (doubt_operations ops d).confidence
unfolding doubt_operations
doubt_operations-IsUnit ops d h =
    let n = length (keep (λ (op : DatabaseChangeOperation). is_unknown op.operation) ops) in
    let less = mul_frac-IsUnit d.confidence (unknown_penalty n) h (unknown_penalty-IsUnit n) in
    elim (Bool-cases (eqb n 0)) [
      | inl zero_there ↦ rw (zero_there, doubt_operations) h
      | inr some_there ↦ rw (some_there, doubt_operations) less
    ]

doubt_tables-IsUnit :
    (missing : List String) (d : Doubt)
    → IsUnit d.confidence
    → IsUnit (doubt_tables missing d).confidence
unfolding doubt_tables
doubt_tables-IsUnit [] d h = h
doubt_tables-IsUnit (_ ∷ _) d h =
    mul_frac-IsUnit d.confidence (percent 85) h (percent-IsUnit 85 (omega arith))

doubt_graph-IsUnit :
    (b : Option BlastRadius) (least : Number) (d : Doubt)
    → ((br : BlastRadius) → b ≡ some br → IsUnit br.confidence)
    → IsUnit d.confidence
    → IsUnit (doubt_graph b least d).confidence
unfolding doubt_graph
doubt_graph-IsUnit none least d k h =
    mul_frac-IsUnit d.confidence (percent 50) h (percent-IsUnit 50 (omega arith))
doubt_graph-IsUnit (some br) least d k h = mul_frac-IsUnit d.confidence br.confidence h (k br refl)

doubt_factors-IsUnit :
    (ts : List RiskFactorType) (d : Doubt)
    → IsUnit d.confidence
    → IsUnit (doubt_factors ts d).confidence
unfolding doubt_factors
doubt_factors-IsUnit [] d h = h
doubt_factors-IsUnit (t ∷ ts) d h = doubt_factors-IsUnit ts _ h

cut-IsUnit : (c : Frac) → IsUnit c → IsUnit (if le_frac (whole 1) c then whole 1 else c)
cut-IsUnit c h = elim (Bool-cases (le_frac (whole 1) c)) [
  | inl e ↦ rw e (record { pos = omega arith; le_one = omega arith })
  | inr e ↦ rw e h
]

-- Where the confidence of the blast radius is at most one, if there is one, so is the confidence of
-- an assessment: a fraction with a positive denominator and a value of at most one.
pub confidence-IsUnit :
    (policy : RiskWeightsPolicy) (context : FactorContext)
    → ((br : BlastRadius) → context.blast_radius ≡ some br → IsUnit br.confidence)
    → IsUnit (confidence_and_uncertainty policy context).confidence
unfolding confidence_and_uncertainty
confidence-IsUnit policy context h = round_frac-IsUnit _ (
    cut-IsUnit _ (
      doubt_factors-IsUnit policy.unimplemented _ (
        doubt_graph-IsUnit context.blast_radius policy.min_confidence_for_no_note _ h (
          doubt_tables-IsUnit (missing_tables context.tables context.operations) _ (
            doubt_operations-IsUnit context.operations _
              (record { pos = omega arith; le_one = omega arith }))))))

is_empty-concat : {A : Type 0} (xs : List A) (x : A) → is_empty (xs ++ x ∷ []) ≡ false
is_empty-concat [] x = refl
is_empty-concat (_ ∷ _) x = refl

-- The operations that the parser could not classify.
abbrev pub unclassified_of : List DatabaseChangeOperation → List DatabaseChangeOperation
unclassified_of ops = keep (λ (op : DatabaseChangeOperation). is_unknown op.operation) ops

doubt_operations-is_empty :
    (ops : List DatabaseChangeOperation) (d : Doubt)
    → is_empty (doubt_operations ops d).uncertainty
      ≡ (is_empty d.uncertainty && is_empty (unclassified_of ops))
unfolding doubt_operations
doubt_operations-is_empty ops d =
    ground (
      arith,
      is_empty-concat d.uncertainty (Uncertainty.unclassified (length (unclassified_of ops))),
    )

doubt_tables-is_empty :
    (missing : List String) (d : Doubt)
    → is_empty (doubt_tables missing d).uncertainty ≡ (is_empty d.uncertainty && is_empty missing)
unfolding doubt_tables
doubt_tables-is_empty [] d = ground arith
doubt_tables-is_empty (x ∷ xs) d = ground (arith, is_empty-concat d.uncertainty)

-- A blast radius, with a confidence that is not below the policy's least.
abbrev pub is_trusted : Option BlastRadius → Number → Bool
is_trusted none least = false
is_trusted (some br) least = not (lt_number (plus br.confidence) least)

doubt_graph-is_empty :
    (b : Option BlastRadius) (least : Number) (d : Doubt)
    → is_empty (doubt_graph b least d).uncertainty ≡ (is_empty d.uncertainty && is_trusted b least)
unfolding doubt_graph
doubt_graph-is_empty none least d = ground (arith, is_empty-concat d.uncertainty)
doubt_graph-is_empty (some br) least d = elim (Bool-cases (lt_number (plus br.confidence) least)) [
  | inl low ↦
      ground
        (arith, low, is_empty-concat d.uncertainty (Uncertainty.graph_confidence br.confidence))
  | inr fine ↦ ground (arith, fine, append-nil d.uncertainty)
]

doubt_factors-is_empty :
    (ts : List RiskFactorType) (d : Doubt)
    → is_empty (doubt_factors ts d).uncertainty ≡ (is_empty d.uncertainty && is_empty ts)
unfolding doubt_factors
doubt_factors-is_empty [] d = ground arith
doubt_factors-is_empty (t ∷ ts) d = ground (
  arith,
  doubt_factors-is_empty ts
      (record d { uncertainty = d.uncertainty ++ Uncertainty.not_assessed t ∷ [] }),
  is_empty-concat d.uncertainty (Uncertainty.not_assessed t),
)

is_empty_iff : {A : Type 0} (xs : List A) → (is_empty xs ≡ true) ↔ (xs ≡ [])
is_empty_iff [] = (λ h. refl, λ h. refl)
is_empty_iff (x ∷ xs) = (λ h. cc, λ h. cc)

-- The list is empty where each of its five sources is.
pub confidence-is_empty :
    (policy : RiskWeightsPolicy) (context : FactorContext)
    → ((confidence_and_uncertainty policy context).uncertainty ≡ []) ↔ (
        (unclassified_of context.operations ≡ [])
        × (missing_tables context.tables context.operations ≡ [])
        × (is_trusted context.blast_radius policy.min_confidence_for_no_note ≡ true)
        × (policy.unimplemented ≡ []))
unfolding confidence_and_uncertainty
confidence-is_empty policy context =
    let missing = missing_tables context.tables context.operations in
    let least = policy.min_confidence_for_no_note in
    let listed = (confidence_and_uncertainty policy context).uncertainty in
    let blank : Doubt = record { confidence = whole 1; uncertainty = [] } in
    let after_ops = doubt_operations context.operations blank in
    let after_tables = doubt_tables missing after_ops in
    let after_graph = doubt_graph context.blast_radius least after_tables in
    ground (
      arith,
      doubt_factors-is_empty policy.unimplemented after_graph,
      doubt_graph-is_empty context.blast_radius least after_tables,
      doubt_tables-is_empty missing after_ops,
      doubt_operations-is_empty context.operations blank,
      is_empty_iff listed,
      is_empty_iff (unclassified_of context.operations),
      is_empty_iff missing,
      is_empty_iff policy.unimplemented,
    )
