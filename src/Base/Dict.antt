-- ===== src/Base/Dict.antt =====
-- Python's `dict` with string keys: an association list in insertion order, where a write to a
-- key that is there keeps its place.
use Prim.Native.String.{String}
use mathlib.Core.Path.{◌≡◌, refl}
use mathlib.Core.Bool.{Bool, true, false}
use mathlib.Core.Option.{Option, none, some}
use mathlib.Core.List.{List, [], ◌∷◌}
use native.Mathlib.Omega.{arith}
use text.Mathlib.Text.{◌==◌}
use text.Mathlib.TextEquality.{eq_iff}
use text.Mathlib.TextPositions.{eq_refl}
use mathlib.Core.Logic.{◌⊎◌, inl, inr}
use db_platform.Base.Tests.{if◌then◌else◌, Bool-cases}
use db_platform.Base.Lists.{Has, Distinct, All}

module _ {ℓ} {V : Type ℓ} where
  -- d.get(k)
  unfoldable pub get : String → List (String × V) → Option V
  get k [] = none
  get k ((j, v) ∷ d) = if j == k then some v else get k d

  -- d[k] = v
  unfoldable pub put : String → V → List (String × V) → List (String × V)
  put k v [] = (k, v) ∷ []
  put k v ((j, w) ∷ d) = if j == k then (k, v) ∷ d else (j, w) ∷ put k v d

  -- d.setdefault(k, v)
  unfoldable pub set_default : String → V → List (String × V) → List (String × V)
  set_default k v [] = (k, v) ∷ []
  set_default k v ((j, w) ∷ d) = if j == k then (j, w) ∷ d else (j, w) ∷ set_default k v d

  -- k in d
  unfoldable pub has : String → List (String × V) → Bool
  has k [] = false
  has k ((j, _) ∷ d) = if j == k then true else has k d

  pub get-put :
      (k j : String) (v : V) (d : List (String × V))
      → get j (put k v d) ≡ (if k == j then some v else get j d)
  unfolding get put
  get-put k j v [] = refl
  get-put k j v ((i, w) ∷ d) = ground (arith, eq_iff k j, eq_iff i k, eq_iff i j, get-put k j v d)

  pub get-set_default :
      (k j : String) (v : V) (d : List (String × V))
      → get j (set_default k v d)
        ≡ (if k == j then (if has k d then get k d else some v) else get j d)
  unfolding get set_default has
  get-set_default k j v [] = ground arith
  get-set_default k j v ((i, w) ∷ d) =
      ground (arith, eq_iff k j, eq_iff i k, eq_iff i j, get-set_default k j v d)

  pub get-put_self : (k : String) (v : V) (d : List (String × V)) → get k (put k v d) ≡ some v
  get-put_self k v d = simp (get-put, eq_refl)

  pub has-put :
      (k j : String) (v : V) (d : List (String × V))
      → has j (put k v d) ≡ (if k == j then true else has j d)
  unfolding has put
  has-put k j v [] = refl
  has-put k j v ((i, w) ∷ d) = ground (arith, eq_iff k j, eq_iff i k, eq_iff i j, has-put k j v d)

  pub has-set_default :
      (k j : String) (v : V) (d : List (String × V))
      → has j (set_default k v d) ≡ (if k == j then true else has j d)
  unfolding has set_default
  has-set_default k j v [] = refl
  has-set_default k j v ((i, w) ∷ d) =
      ground (arith, eq_iff k j, eq_iff i k, eq_iff i j, has-set_default k j v d)

  pub has-get : (k : String) (d : List (String × V)) → has k d ≡ true → (v : V) × (get k d ≡ some v)
  unfolding has get
  has-get k [] h = cc
  has-get k ((j, v) ∷ d) h = elim (Bool-cases (j == k)) [
    | inl e ↦ (v, rw e)
    | inr e ↦ rw e (has-get k d (rw e at h))
  ]

  -- What is read after a write is the value written, or was there before.
  pub get-put_cases :
      (k j : String) (v w : V) (d : List (String × V))
      → get j (put k v d) ≡ some w
      → ((k ≡ j) × (v ≡ w)) ⊎ (get j d ≡ some w)
  get-put_cases k j v w d h = ground (arith, get-put k j v d, eq_iff k j)

abbrev pub keys {ℓ} : {V : Type ℓ} → List (String × V) → List String
keys [] = []
keys ((k, _) ∷ d) = k ∷ keys d

module _ {ℓ} {V : Type ℓ} where
  pub Has-keys-put :
      (k j : String) (v : V) (d : List (String × V))
      → Has j (keys (put k v d))
      → (j ≡ k) ⊎ Has j (keys d)
  unfolding put
  Has-keys-put k j v [] h = h
  Has-keys-put k j v ((i, w) ∷ d) h = ground (arith, eq_iff i k, Has-keys-put k j v d)

  -- A write leaves each key once.
  pub put-Distinct :
      (k : String) (v : V) (d : List (String × V)) → Distinct (keys d) → Distinct (keys (put k v d))
  unfolding put
  put-Distinct k v [] h = (λ n. n, tt)
  put-Distinct k v ((i, w) ∷ d) h =
      ground (arith, eq_iff i k, put-Distinct k v d, Has-keys-put k i v d)

  pub put-All {κ} :
      (P : String × V → Type κ) (k : String) (v : V) (d : List (String × V))
      → All P d
      → P (k, v)
      → All P (put k v d)
  unfolding put
  put-All P k v [] h p = (p, tt)
  put-All P k v ((i, w) ∷ d) h p = elim (Bool-cases (i == k)) [
    | inl same ↦ rw same (p, h.1)
    | inr other ↦ rw other (h.0, put-All P k v d h.1 p)
  ]

  pub has-get-none : (k : String) (d : List (String × V)) → get k d ≡ none → has k d ≡ false
  unfolding has get
  has-get-none k [] h = refl
  has-get-none k ((j, v) ∷ d) h = ground (arith, has-get-none k d)

  pub has-get-some :
      (k : String) (v : V) (d : List (String × V)) → get k d ≡ some v → has k d ≡ true
  unfolding has get
  has-get-some k v [] h = cc
  has-get-some k v ((j, w) ∷ d) h = ground (arith, has-get-some k v d)

  pub Has-keys-set_default :
      (k j : String) (v : V) (d : List (String × V))
      → Has j (keys (set_default k v d))
      → (j ≡ k) ⊎ Has j (keys d)
  unfolding set_default
  Has-keys-set_default k j v [] h = h
  Has-keys-set_default k j v ((i, w) ∷ d) h =
      ground (arith, eq_iff i k, Has-keys-set_default k j v d)

  pub set_default-Distinct :
      (k : String) (v : V) (d : List (String × V))
      → Distinct (keys d)
      → Distinct (keys (set_default k v d))
  unfolding set_default
  set_default-Distinct k v [] h = (λ n. n, tt)
  set_default-Distinct k v ((i, w) ∷ d) h =
      ground (arith, eq_iff i k, set_default-Distinct k v d, Has-keys-set_default k i v d)

  pub has-Has : (k : String) (d : List (String × V)) → has k d ≡ true → Has k (keys d)
  unfolding has
  has-Has k [] h = cc
  has-Has k ((i, w) ∷ d) h = ground (arith, eq_iff i k, has-Has k d)

  pub get-has : (k : String) (d : List (String × V)) → has k d ≡ false → get k d ≡ none
  unfolding has get
  get-has k [] h = refl
  get-has k ((i, w) ∷ d) h = ground (arith, get-has k d)
