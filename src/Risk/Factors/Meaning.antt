-- ===== src/Risk/Factors/Meaning.antt =====
-- What the factor scores of risk/factors.py say of the operations and of the context.
use db_platform.Base.{
  ℕ, ◌≤◌, ◌≡◌, refl, sym, Bool, true, false, none, some, List, [], ◌∷◌, arith, ltb, any, All,
  All-of, Has, inl, inr, ◌⊎◌, ◌↔◌, Bool-cases,
}
use db_platform.Base.Frac.{Frac}
use db_platform.Change.{DatabaseChangeOperation, DatabaseOperation}
use db_platform.Change.Kinds.{is_breaking_hard, is_breaking_soft}
use db_platform.Risk.{FactorContext}
use db_platform.Risk.Factors.Operations.{
  lock_risk_base, lock_score, worst_lock, compute_lock_risk, kinds, compute_backward_compatibility,
}

lock_score-le : (op : DatabaseChangeOperation) → lock_score op ≤ 85
unfolding lock_score
lock_score-le op = go op.operation
  where
    go : (o : DatabaseOperation) → (elim (lock_risk_base o) [ none ↦ 50 | some s ↦ s ]) ≤ 85
    go DatabaseOperation.create_table = omega arith
    go _ = omega arith

-- What the loop holds is at least what it started from and at least every score it has met, and it
-- is one of these.
worst_lock_lem :
    (ops : List DatabaseChangeOperation) (w : ℕ)
    → (v : ℕ) × (worst_lock ops (some w) ≡ some v)
      × (w ≤ v)
      × ((op : DatabaseChangeOperation) → Has op ops → lock_score op ≤ v)
      × ((v ≡ w) ⊎ ((op : DatabaseChangeOperation) × Has op ops × (lock_score op ≡ v)))
unfolding worst_lock
worst_lock_lem [] w = (w, refl, omega arith, λ op h. absurd h, inl refl)
worst_lock_lem (x ∷ ops) w = elim (Bool-cases (ltb w (lock_score x))) [
  | inl more ↦
      let (v, e, le, all_le, from) = worst_lock_lem ops (lock_score x) in
      (
        v,
        rw (more, worst_lock) e,
        ground arith,
        λ op h. elim h [ inl same ↦ rw same le | inr later ↦ all_le op later ],
        inr (elim from [
          | inl here ↦ (x, inl refl, sym here)
          | inr (op, h, at_op) ↦ (op, inr h, at_op)
        ]),
      )
  | inr less ↦
      let (v, e, le, all_le, from) = worst_lock_lem ops w in
      (
        v,
        rw (less, worst_lock) e,
        le,
        λ op h. elim h [ inl same ↦ rw same (ground arith) | inr later ↦ all_le op later ],
        elim from [ inl here ↦ inl here | inr (op, h, at_op) ↦ inr (op, inr h, at_op) ],
      )
]

-- The largest lock score of the operations, if there is one.
data Worst (ops : List DatabaseChangeOperation) : Type 0 where
  nothing : ops ≡ [] → worst_lock ops none ≡ none → Worst ops
  worst :
      (op : DatabaseChangeOperation)
      → Has op ops
      → worst_lock ops none ≡ some (lock_score op)
      → All (λ x. lock_score x ≤ lock_score op) ops
      → Worst ops

Worst-cases : (ops : List DatabaseChangeOperation) → Worst ops
unfolding worst_lock
Worst-cases [] = nothing refl refl
Worst-cases (x ∷ ops) =
    let (v, e, le, all_le, from) = worst_lock_lem ops (lock_score x) in
    let bound : (y : DatabaseChangeOperation) → Has y (x ∷ ops) → lock_score y ≤ v =
      λ y h. elim h [ inl same ↦ rw same le | inr later ↦ all_le y later ] in
    elim from [
      | inl here ↦
          worst x (inl refl) (rw here at e)
            (All-of (λ y. lock_score y ≤ lock_score x) (x ∷ ops) (λ y h. omega (arith, bound y h)))
      | inr (op, h, at_op) ↦
          worst op (inr h) (rw at_op e)
            (All-of (λ y. lock_score y ≤ lock_score op) (x ∷ ops) (λ y h. omega (arith, bound y h)))
    ]

-- The lock risk of a change is the largest lock score of its operations: no operation scores more,
-- and one of them scores as much. With no operation it is 0.
pub lock_risk_worst :
    (ctx : FactorContext) (w : Frac)
    → All (λ op. lock_score op ≤ (compute_lock_risk ctx w).score) ctx.operations
      × (((op : DatabaseChangeOperation) × Has op ctx.operations
            × (lock_score op ≡ (compute_lock_risk ctx w).score))
          ⊎ ((ctx.operations ≡ []) × ((compute_lock_risk ctx w).score ≡ 0)))
unfolding compute_lock_risk
lock_risk_worst ctx w = elim (Worst-cases ctx.operations) [
  | nothing empty e ↦
      let zero_score : (compute_lock_risk ctx w).score ≡ 0 = rw (e, compute_lock_risk) refl in
      (
        All-of (λ op. lock_score op ≤ (compute_lock_risk ctx w).score) ctx.operations
            (λ op h. absurd (let h' : Has op [] = rw empty at h in h')),
        inr (empty, zero_score),
      )
  | worst op h e all_le ↦
      let same : lock_score op ≡ (compute_lock_risk ctx w).score =
        rw (e, compute_lock_risk) (ground (arith, lock_score-le op)) in
      (rw (← same) all_le, inl (op, h, same))
]

any-Has :
    (p : DatabaseOperation → Bool) (ops : List DatabaseChangeOperation)
    → (any p (kinds ops) ≡ true)
      ↔ ((op : DatabaseChangeOperation) × Has op ops × (p op.operation ≡ true))
unfolding kinds
any-Has p [] = (λ h. cc, λ (op, h, _). absurd h)
any-Has p (x ∷ ops) = (
  λ h. elim (Bool-cases (p x.operation)) [
    | inl here ↦ (x, inl refl, here)
    | inr not_here ↦ let (op, k, e) = (any-Has p ops).0 (ground arith) in (op, inr k, e)
  ],
  λ (op, h, e). elim h [
    | inl same ↦ let e' : p x.operation ≡ true = rw (← same) e in ground arith
    | inr later ↦ let later' = (any-Has p ops).1 (op, later, e) in ground arith
  ],
)

-- The backward compatibility scores 90 exactly where an operation drops, renames or retypes what
-- running applications refer to, and 15 exactly where none of the operations breaks or narrows
-- anything; else it scores 55.
pub backward_compatibility_scores :
    (ctx : FactorContext) (w : Frac)
    → (((compute_backward_compatibility ctx w).score ≡ 90) ↔ (
        (op : DatabaseChangeOperation) × Has op ctx.operations
        × (is_breaking_hard op.operation ≡ true)))
      × (((compute_backward_compatibility ctx w).score ≡ 15) ↔ (
          (any is_breaking_hard (kinds ctx.operations) ≡ false)
          × (any is_breaking_soft (kinds ctx.operations) ≡ false)))
      × (((compute_backward_compatibility ctx w).score ≡ 90)
          ⊎ ((compute_backward_compatibility ctx w).score ≡ 55)
          ⊎ ((compute_backward_compatibility ctx w).score ≡ 15))
unfolding compute_backward_compatibility
backward_compatibility_scores ctx w = (
  (
    λ h. (any-Has is_breaking_hard ctx.operations).0 (ground arith),
    λ h. let hard = (any-Has is_breaking_hard ctx.operations).1 h in ground arith,
  ),
  (λ h. (ground arith, ground arith), λ h. ground arith),
  ground arith,
)
