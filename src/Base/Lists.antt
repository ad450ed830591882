-- ===== src/Base/Lists.antt =====
-- Lists over the native numbers, and membership that the tactics can take apart.
use Prim.Native.Nat.{ℕ, zero, suc, ◌+◌, ◌≤◌}
use mathlib.Core.Path.{◌≡◌, refl}
use mathlib.Core.Logic.{◌⊎◌, inl, inr, ◌↔◌}
use mathlib.Core.Bool.{Bool, true, false, ◌&&◌, ◌||◌}
use mathlib.Core.Option.{Option, none, some}
use mathlib.Core.List.{List, [], ◌∷◌, ◌++◌}
use native.Mathlib.Omega.{arith}
use db_platform.Base.Tests.{if◌then◌else◌}

module _ {ℓ} {A : Type ℓ} where
  abbrev pub length : List A → ℕ
  length [] = 0
  length (_ ∷ xs) = suc (length xs)

  -- `any(p(x) for x in xs)` and `all(...)`
  abbrev pub any : (A → Bool) → List A → Bool
  any p [] = false
  any p (x ∷ xs) = p x || any p xs

  abbrev pub all : (A → Bool) → List A → Bool
  all p [] = true
  all p (x ∷ xs) = p x && all p xs

  -- `[x for x in xs if p(x)]`
  abbrev pub keep : (A → Bool) → List A → List A
  keep p [] = []
  keep p (x ∷ xs) = let rest = keep p xs in if p x then x ∷ rest else rest

  -- `next((x for x in xs if p(x)), None)`
  abbrev pub first : (A → Bool) → List A → Option A
  first p [] = none
  first p (x ∷ xs) = let rest = first p xs in if p x then some x else rest

  abbrev pub is_empty : List A → Bool
  is_empty [] = true
  is_empty (_ ∷ _) = false

  pub length-append : (xs ys : List A) → length (xs ++ ys) ≡ length xs + length ys
  length-append [] ys = omega arith
  length-append (_ ∷ xs) ys = omega (arith, length-append xs ys)

  pub List-cases : (xs : List A) → (xs ≡ []) ⊎ ((x : A) × (rest : List A) × (xs ≡ x ∷ rest))
  List-cases [] = inl refl
  List-cases (x ∷ rest) = inr (x, rest, refl)

  pub length-keep : (p : A → Bool) (xs : List A) → length (keep p xs) ≤ length xs
  length-keep p [] = omega arith
  length-keep p (x ∷ xs) = ground (arith, length-keep p xs)

module _ {A : Type 0} where
  -- a ∈ xs
  abbrev pub Has : A → List A → Type 0
  Has a [] = ⊥
  Has a (x ∷ xs) = (a ≡ x) ⊎ Has a xs

  pub Has-append : (a : A) (xs ys : List A) → Has a (xs ++ ys) ↔ (Has a xs ⊎ Has a ys)
  Has-append a [] ys = (inr, elim [ inl h ↦ absurd h | inr h ↦ h ])
  Has-append a (x ∷ xs) ys = ground (arith, Has-append a xs ys)

  pub Has-keep :
      (a : A) (p : A → Bool) (xs : List A) → Has a (keep p xs) ↔ (Has a xs × (p a ≡ true))
  Has-keep a p [] = (λ h. absurd h, λ h. h.0)
  Has-keep a p (x ∷ xs) = ground (arith, Has-keep a p xs)

  abbrev pub Distinct : List A → Type 0
  Distinct [] = Unit
  Distinct (x ∷ xs) = ¬ (Has x xs) × Distinct xs

module _ {ℓ} {A : Type ℓ} where
  pub keep-append :
      (p : A → Bool) (xs : List A) (x : A)
      → keep p (xs ++ x ∷ []) ≡ (if p x then keep p xs ++ x ∷ [] else keep p xs)
  keep-append p [] x = ground arith
  keep-append p (y ∷ xs) x = ground (arith, keep-append p xs x)

  abbrev pub All {κ} : (A → Type κ) → List A → Type κ
  All P [] = Unit
  All P (x ∷ xs) = P x × All P xs

  abbrev pub Any : (A → Type 0) → List A → Type 0
  Any P [] = ⊥
  Any P (x ∷ xs) = P x ⊎ Any P xs

  pub All-append {κ} : (P : A → Type κ) (xs ys : List A) → All P xs → All P ys → All P (xs ++ ys)
  All-append P [] ys h k = k
  All-append P (x ∷ xs) ys h k = (h.0, All-append P xs ys h.1 k)

module _ {A : Type 0} where
  pub Distinct-concat : (xs : List A) (x : A) → Distinct xs → ¬ (Has x xs) → Distinct (xs ++ x ∷ [])
  Distinct-concat [] x d n = (λ h. h, tt)
  Distinct-concat (y ∷ xs) x d n = ground (arith, Distinct-concat xs x, Has-append y xs (x ∷ []))

  -- What holds of each member holds of all, and the other way round.
  pub All-of {κ} : (P : A → Type κ) (xs : List A) → ((x : A) → Has x xs → P x) → All P xs
  All-of P [] h = tt
  All-of P (x ∷ xs) h = (h x (inl refl), All-of P xs (λ y k. h y (inr k)))

  pub All-Has {κ} : (P : A → Type κ) (xs : List A) (x : A) → All P xs → Has x xs → P x
  All-Has P [] x h k = absurd k
  All-Has P (y ∷ xs) x h (inl e) = rw e h.0
  All-Has P (y ∷ xs) x h (inr k) = All-Has P xs x h.1 k

  pub is_empty_iff : (xs : List A) → (is_empty xs ≡ true) ↔ ((x : A) → ¬ (Has x xs))
  is_empty_iff [] = (λ _ x h. h, λ _. refl)
  is_empty_iff (x ∷ xs) = (λ h. cc, λ n. absurd (n x (inl refl)))

  pub Any-Has : (P : A → Type 0) (xs : List A) (x : A) → Has x xs → P x → Any P xs
  Any-Has P [] x h p = absurd h
  Any-Has P (y ∷ xs) x (inl e) p = inl (rw (← e) p)
  Any-Has P (y ∷ xs) x (inr h) p = inr (Any-Has P xs x h p)

  abbrev pub item_at : ℕ → List A → Option A
  item_at n [] = none
  item_at zero (x ∷ xs) = some x
  item_at (suc n) (x ∷ xs) = item_at n xs

  pub item_at-Has : (n : ℕ) (xs : List A) (x : A) → item_at n xs ≡ some x → Has x xs
  item_at-Has n [] x h = cc
  item_at-Has zero (y ∷ xs) x h = inl cc
  item_at-Has (suc n) (y ∷ xs) x h = inr (item_at-Has n xs x h)
