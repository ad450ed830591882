-- ===== src/Slo/Worst.antt =====
-- The verdict of a report of slo/calculator.py, against its statuses.
use db_platform.Base.{
  ℕ, ◌≤◌, true, List, [], ◌∷◌, ◌≡◌, refl, ◌∙◌, ◌↔◌, ◌⊎◌, inl, inr, arith, All, All-of, All-Has, ap,
  sym, Has, ltb, ltb→lt, Bool-cases,
}
use db_platform.Slo.{AlertSeverity, ErrorBudgetStatus, SloReport, severity_order, is_healthy, is_ok}
use db_platform.Slo.Status.{worse, worst_of, worst_among, worst_severity, healthy}

abbrev level : ErrorBudgetStatus → ℕ
unfolding severity_order
level s = severity_order s.severity

worse_lem :
    (w s : ErrorBudgetStatus)
    → ((worse w s ≡ w) ⊎ (worse w s ≡ s))
      × (level w ≤ level (worse w s))
      × (level s ≤ level (worse w s))
unfolding worse
worse_lem w s = elim (Bool-cases (ltb (level w) (level s))) [
  | inl below ↦ rw below (inr refl, omega (arith, ltb→lt (level w) (level s) below), omega arith)
  | inr not_below ↦ rw not_below (inl refl, omega arith, ground arith)
]

-- The worst of some statuses is one of them, and none of them is worse.
worst_of_lem :
    (w : ErrorBudgetStatus) (statuses : List ErrorBudgetStatus)
    → Has (worst_of w statuses) (w ∷ statuses)
      × (level w ≤ level (worst_of w statuses))
      × All (λ s. level s ≤ level (worst_of w statuses)) statuses
unfolding worst_of
worst_of_lem w [] = (inl refl, omega arith, tt)
worst_of_lem w (s ∷ statuses) =
    let (which, over_w, over_s) = worse_lem w s in
    let (one, over, rest) = worst_of_lem (worse w s) statuses in
    (
      elim one [
        | inl e ↦ elim which [ inl f ↦ inl (e ∙ f) | inr f ↦ inr (inl (e ∙ f)) ]
        | inr m ↦ inr (inr m)
      ],
      omega arith,
      (omega arith, rest),
    )

worst_among_lem :
    (statuses : List ErrorBudgetStatus)
    → All (λ s. level s ≤ severity_order (worst_among statuses)) statuses
      × ((statuses ≡ [])
          ⊎ ((s : ErrorBudgetStatus) × Has s statuses × (s.severity ≡ worst_among statuses)))
unfolding worst_among
worst_among_lem [] = (tt, inl refl)
worst_among_lem (s ∷ statuses) =
    let (one, over, rest) = worst_of_lem s statuses in
    ((over, rest), inr (worst_of s statuses, one, refl))

order-ok : (a : AlertSeverity) → severity_order a ≤ 0 → is_ok a ≡ true
unfolding severity_order
order-ok AlertSeverity.ok h = refl
order-ok AlertSeverity.ticket h = absurd (omega arith)
order-ok AlertSeverity.page h = absurd (omega arith)

ok-order : (a : AlertSeverity) → is_ok a ≡ true → severity_order a ≤ 0
unfolding severity_order
ok-order AlertSeverity.ok h = omega arith
ok-order AlertSeverity.ticket h = cc
ok-order AlertSeverity.page h = cc

-- No status of a report is worse than its worst severity, which is that of one of them if there is
-- one; the report is healthy exactly where each of its statuses is.
pub worst_severity-All :
    (report : SloReport)
    → All (λ s. severity_order s.severity ≤ severity_order (worst_severity report)) report.statuses
      × ((report.statuses ≡ [])
          ⊎ ((s : ErrorBudgetStatus) × Has s report.statuses
              × (s.severity ≡ worst_severity report)))
      × ((healthy report ≡ true) ↔ All (λ s. is_healthy s ≡ true) report.statuses)
unfolding worst_severity healthy is_healthy worst_among
worst_severity-All report =
    let (covers, one) = worst_among_lem report.statuses in
    (
      covers,
      one,
      (
        (λ h. All-of _ report.statuses (λ s m. order-ok s.severity (
            omega (
              arith,
              ok-order (worst_among report.statuses) h,
              All-Has _ report.statuses s covers m,
            )))),
        (λ all_healthy. elim one [
          | inl none_there ↦ rw none_there refl
          | inr (s, m, same) ↦ ap is_ok (sym same) ∙ All-Has _ report.statuses s all_healthy m
        ]),
      ),
    )
