-- ===== src/Risk/Factors/Size.antt =====
-- The table size score of risk/factors.py against the sizes of the tables that a change targets.
use db_platform.Base.{
  ℕ, ◌≤◌, ◌≡◌, refl, List, [], ◌∷◌, arith, ltb, Has, inl, inr, ◌↔◌, List-cases, Bool-cases,
}
use db_platform.Base.Frac.{Frac}
use db_platform.Metadata.{TableMetadata}
use db_platform.Risk.{FactorContext, make_factor, target_tables}
use db_platform.Risk.Factors.Operations.{or_zero}
use db_platform.Risk.Factors.Context.{largest, size_score, compute_table_size}

-- The largest of the tables is one of them, and no other has a larger key.
largest_lem :
    (key : TableMetadata → ℕ) (best : TableMetadata) (ts : List TableMetadata)
    → (x : TableMetadata) × (largest key best ts ≡ x)
      × Has x (best ∷ ts)
      × ((t : TableMetadata) → Has t (best ∷ ts) → key t ≤ key x)
unfolding largest
largest_lem key best [] = (
  best,
  refl,
  inl refl,
  λ t h. elim h [ inl e ↦ rw e (omega arith) | inr none_left ↦ absurd none_left ],
)
largest_lem key best (t ∷ ts) = elim (Bool-cases (ltb (key best) (key t))) [
  | inl more ↦
      let (x, is, has, most) = largest_lem key t ts in
      (
        x,
        rw (more, largest) is,
        inr has,
        λ u h. elim h [
          | inl e ↦ rw e (let at_t = most t (inl refl) in ground arith)
          | inr later ↦ most u later
        ],
      )
  | inr less ↦
      let (x, is, has, most) = largest_lem key best ts in
      (
        x,
        rw (less, largest) is,
        elim has [ inl e ↦ inl e | inr later ↦ inr (inr later) ],
        λ u h. elim h [
          | inl e ↦ most u (inl e)
          | inr (inl e) ↦ rw e (let at_best = most best (inl refl) in ground arith)
          | inr (inr later) ↦ most u (inr later)
        ],
      )
]

size_of : TableMetadata → ℕ
size_of t = or_zero t.table_size_bytes

size_score_threshold : (n : ℕ) → (75 ≤ size_score n) ↔ (107374182400 ≤ n)
unfolding size_score
size_score_threshold n = (λ h. ground arith, λ h. ground arith)

size_score-le : (n : ℕ) → size_score n ≤ 95
unfolding size_score
size_score-le n = ground arith

-- The table size of a change scores 75 or more exactly where one of the tables that it targets has
-- 100 GiB or more on disk.
pub table_size_threshold :
    (ctx : FactorContext) (w : Frac)
    → (75 ≤ (compute_table_size ctx w).score) ↔ (
        (t : TableMetadata) × Has t (target_tables ctx)
        × (107374182400 ≤ or_zero t.table_size_bytes))
unfolding compute_table_size make_factor size_of
table_size_threshold ctx w = elim (List-cases (target_tables ctx)) [
  | inl e ↦ rw (e, compute_table_size) (λ h. absurd (omega (arith, h)), λ (t, h, _). absurd h)
  | inr (x, rest, e) ↦
      let (biggest, is, has, most) = largest_lem size_of x rest in
      let n = or_zero biggest.table_size_bytes in
      rw (e, compute_table_size, is)
        (
          λ h. (biggest, has, (size_score_threshold n).0 (ground (arith, size_score-le n))),
          λ (t, h, big).
              let at_least = (size_score_threshold n).1 (omega (arith, most t h, big)) in
              ground (arith, size_score-le n),
        )
]
