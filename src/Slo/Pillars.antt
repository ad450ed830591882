-- ===== src/Slo/Pillars.antt =====
-- The pillars of slo/calculator.py that have data, and the names that its report gives them.
use db_platform.Base.{
  ℕ, String, true, false, Option, none, some, [], ◌∷◌, ◌≡◌, refl, Bool, List, map, ◌&&◌,
  if◌then◌else◌, sym,
}
use db_platform.Base.Frac.{Frac}
use db_platform.Base.Result.{Result, err, ok-injective}
use db_platform.Slo.{SloError, ErrorBudgetStatus, MetricsSnapshot}
use db_platform.Slo.Budget.{
  sli_from_good_total, error_budget, budget_consumed_fraction, budget_remaining_fraction, burn_rate,
  divided,
}
use db_platform.Slo.Status.{ratio_status, assessed, unassessed, Pillars}

-- Which pillars the metrics have data of.
abbrev pub there {ℓ} : {A : Type ℓ} → Option A → Bool
there none = false
there (some _) = true

abbrev pub data_of : MetricsSnapshot → List (String × Bool)
data_of metrics =
    ("availability", there metrics.good_requests && there metrics.total_requests)
    ∷ ("latency", there metrics.good_latency_requests && there metrics.total_latency_requests)
    ∷ ("backup", there metrics.hours_since_last_backup)
    ∷ ("recovery", there metrics.hours_since_last_recovery_test)
    ∷ []

-- The names with `true`, or those with `false`.
abbrev pub names_with : Bool → List (String × Bool) → List String
names_with b [] = []
names_with true ((name, t) ∷ ds) = let rest = names_with true ds in if t then name ∷ rest else rest
names_with false ((name, t) ∷ ds) =
    let rest = names_with false ds in if t then rest else name ∷ rest

-- A status of that name where there is data, and none where there is not.
abbrev pub IsNamed : String → Bool → Option ErrorBudgetStatus → Type 0
IsNamed name true o = (s : ErrorBudgetStatus) × (o ≡ some s) × (s.name ≡ name)
IsNamed name false o = o ≡ none

abbrev pub IsDescribed : Pillars → List (String × Bool) → Type 0
IsDescribed [] [] = Unit
IsDescribed ((name, o) ∷ ps) ((n, t) ∷ ds) = ((name ≡ n) × IsNamed n t o) × IsDescribed ps ds
IsDescribed _ _ = ⊥

pub assessed-names :
    (ps : Pillars) (ds : List (String × Bool))
    → IsDescribed ps ds
    → map (λ s. s.name) (assessed ps) ≡ names_with true ds
unfolding assessed
assessed-names [] [] h = refl
assessed-names [] (d ∷ ds) h = absurd h
assessed-names (p ∷ ps) [] h = absurd h
assessed-names ((name, o) ∷ ps) ((n, true) ∷ ds) ((e, (s, o_is, named)), h) =
    rw (o_is, named, assessed-names ps ds h) refl
assessed-names ((name, o) ∷ ps) ((n, false) ∷ ds) ((e, o_is), h) =
    rw (o_is, assessed-names ps ds h) refl

pub unassessed-names :
    (ps : Pillars) (ds : List (String × Bool))
    → IsDescribed ps ds
    → unassessed ps ≡ names_with false ds
unfolding unassessed
unassessed-names [] [] h = refl
unassessed-names [] (d ∷ ds) h = absurd h
unassessed-names (p ∷ ps) [] h = absurd h
unassessed-names ((name, o) ∷ ps) ((n, true) ∷ ds) ((e, (s, o_is, named)), h) =
    rw (o_is, unassessed-names ps ds h) refl
unassessed-names ((name, o) ∷ ps) ((n, false) ∷ ds) ((e, o_is), h) =
    rw (o_is, e, unassessed-names ps ds h) refl

then_ok :
    {A T : Type 0} (r : Result SloError A) (next : A → Result SloError T) (o : T)
    → (elim r [ err e ↦ err e | Result.ok a ↦ next a ]) ≡ Result.ok o
    → (a : A) × (next a ≡ Result.ok o)
then_ok (err e) next o h = cc
then_ok (Result.ok a) next o h = (a, h)

pub ratio_status-IsNamed :
    (name : String) (target : Frac) (metrics : MetricsSnapshot) (good total : Option ℕ)
    (o : Option ErrorBudgetStatus)
    → ratio_status name target metrics good total ≡ Result.ok o
    → IsNamed name (there good && there total) o
unfolding ratio_status
ratio_status-IsNamed name target metrics none total o h = sym (ok-injective none o h)
ratio_status-IsNamed name target metrics (some g) none o h = sym (ok-injective none o h)
ratio_status-IsNamed name target metrics (some g) (some t) o h =
    let (sli, h1) = then_ok (sli_from_good_total g t) _ o h in
    let (rate, h2) =
      then_ok (burn_rate sli target metrics.window_days metrics.period_days) _ o h1 in
    let (budget, h3) = then_ok (error_budget target) _ o h2 in
    let (consumed, h4) = then_ok (budget_consumed_fraction sli target) _ o h3 in
    let (remaining, h5) = then_ok (budget_remaining_fraction sli target) _ o h4 in
    (_, sym (ok-injective _ o h5), refl)

pub age-IsNamed :
    (name : String) (hours : Option Frac) (bound : Frac) (next : Frac → ErrorBudgetStatus)
    → ((r : Frac) → (next r).name ≡ name)
    → (o : Option ErrorBudgetStatus)
    → (elim hours [
      | none ↦ Result.ok none
      | some h ↦ elim (divided h bound) [ err e ↦ err e | Result.ok r ↦ Result.ok (some (next r)) ]
    ])
      ≡ Result.ok o
    → IsNamed name (there hours) o
age-IsNamed name none bound next named o h = sym (ok-injective none o h)
age-IsNamed name (some hours) bound next named o h =
    let (r, h1) = then_ok (divided hours bound) (λ r. Result.ok (some (next r))) o h in
    (next r, sym (ok-injective _ o h1), named r)
