-- ===== src/Base/Result.antt =====
-- A value, or the error that was raised.
use mathlib.Core.Path.{◌≡◌, refl}
use mathlib.Core.Logic.{◌⊎◌, inl, inr}
use mathlib.Core.List.{List, [], ◌∷◌}
use db_platform.Base.Lists.{Has}

pub data Result {ℓ κ} (E : Type ℓ) (A : Type κ) : Type (ℓ ⊔ κ) where
  ok : A → Result E A
  err : E → Result E A

infixl 5 ◌>>=◌
abbrev pub ◌>>=◌ {ℓ κ μ} :
    {E : Type ℓ} {A : Type κ} {B : Type μ} → Result E A → (A → Result E B) → Result E B
ok a >>= f = f a
err e >>= f = err e

pub ok-injective {ℓ κ} :
    {E : Type ℓ} {A : Type κ} (a b : A) → ◌≡◌ {A = Result E A} (ok a) (ok b) → a ≡ b
ok-injective a b h = cc

pub Result-cases {ℓ κ} :
    {E : Type ℓ} {A : Type κ} (r : Result E A) → ((a : A) × (r ≡ ok a)) ⊎ ((e : E) × (r ≡ err e))
Result-cases (ok a) = inl (a, refl)
Result-cases (err e) = inr (e, refl)

-- A `for` loop whose rounds may raise: the state after it, or the error of the first that did.
abbrev pub for_each {ℓ κ μ} :
    {E : Type ℓ} {S : Type κ} {A : Type μ} → (A → S → Result E S) → List A → S → Result E S
for_each step [] s = ok s
for_each step (a ∷ more) s = elim (step a s) [ err e ↦ err e | ok s' ↦ for_each step more s' ]

-- Where each round ends and keeps an invariant, the loop ends and keeps it.
pub for_each-keeps :
    {E S A : Type 0} (step : A → S → Result E S) (P : S → Type 0) (xs : List A)
    → ((a : A) → Has a xs → (s : S) → P s → (s' : S) × (step a s ≡ ok s') × P s')
    → (s : S) → P s
    → (s' : S) × (for_each step xs s ≡ ok s') × P s'
for_each-keeps step P [] each s h = (s, refl, h)
for_each-keeps step P (a ∷ more) each s h =
    let (s1, first_done, h1) = each a (inl refl) s h in
    let (s2, rest_done, h2) = for_each-keeps step P more (λ b m. each b (inr m)) s1 h1 in
    (s2, rw (for_each, first_done) rest_done, h2)

-- How a call ends: with a state of one kind, or with an error of another.
abbrev pub Ends : {E S : Type 0} → (S → Type 0) → (E → Type 0) → Result E S → Type 0
Ends {E} {S} P B r = ((s : S) × (r ≡ ok s) × P s) ⊎ ((e : E) × (r ≡ err e) × B e)

-- Where each round ends in a state that keeps an invariant, or with an error of a kind, so does
-- the loop.
pub for_each-Ends :
    {E S A : Type 0} (step : A → S → Result E S) (P : S → Type 0) (B : E → Type 0) (xs : List A)
    → ((a : A) → Has a xs → (s : S) → P s → Ends P B (step a s))
    → (s : S) → P s
    → Ends P B (for_each step xs s)
for_each-Ends step P B [] each s h = inl (s, refl, h)
for_each-Ends step P B (a ∷ more) each s h = elim (each a (inl refl) s h) [
  | inr (e, failed, b) ↦ inr (e, rw (for_each, failed) refl, b)
  | inl (s1, done, h1) ↦
      rw (for_each, done) (for_each-Ends step P B more (λ x m. each x (inr m)) s1 h1)
]

-- One call after another.
pub then-Ends :
    {E S : Type 0} (P : S → Type 0) (B : E → Type 0) (r : Result E S) (next : S → Result E S)
    → Ends P B r
    → ((s : S) → P s → Ends P B (next s))
    → Ends P B (elim r [ err e ↦ err e | ok s ↦ next s ])
then-Ends P B r next (inl (s, done, h)) after = rw done (after s h)
then-Ends P B r next (inr (e, failed, b)) after = inr (e, rw failed refl, b)

pub Ends-map :
    {E S : Type 0} (P Q : S → Type 0) (B : E → Type 0) (r : Result E S)
    → ((s : S) → P s → Q s)
    → Ends P B r
    → Ends Q B r
Ends-map P Q B r f (inl (s, done, h)) = inl (s, done, f s h)
Ends-map P Q B r f (inr failed) = inr failed

-- A call that raises nothing.
abbrev pub Returns : {E S : Type 0} → Result E S → Type 0
Returns {E} {S} r = (s : S) × (r ≡ ok s)

pub then-Returns :
    {E S T : Type 0} (r : Result E S) (next : S → Result E T)
    → Returns r
    → ((s : S) → Returns (next s))
    → Returns (elim r [ err e ↦ err e | ok s ↦ next s ])
then-Returns r next (s, done) after = rw done (after s)
