-- ===== src/Overrides/Flags/Precedence.antt =====
-- Which of several overrides of one path `build_field_overrides` of config/overrides.py keeps.
use db_platform.Base.{
  String, ◌≡◌, refl, ◌∙◌, ap, sym, Option, none, some, List, [], ◌∷◌, arith, ◌==◌, if◌then◌else◌,
  inl, inr, or_else,
}
use db_platform.Base.Dict.{get, put, get-put}
use db_platform.Base.Result.{Result, ok, err, for_each, ok-injective, Result-cases}
use db_platform.Base.Value.{Value}
use db_platform.Overrides.Flags.{
  OverrideError, Override, Yaml, flag_override, set_override, write_override, build_field_overrides,
}

-- What an override gives to a path.
abbrev pub value_at : String → Result OverrideError Override → Option Value
value_at path (err e) = none
value_at path (ok none) = none
value_at path (ok (some (p, value))) = if p == path then some value else none

-- What the last one of some sources that overrides a path gives to it.
unfoldable pub last_given :
    {A : Type 0} → (A → Result OverrideError Override) → String → List A → Option Value
last_given read path [] = none
last_given read path (a ∷ more) = or_else (last_given read path more) (value_at path (read a))

or_else_assoc : {A : Type 0} (a b c : Option A) → or_else (or_else a b) c ≡ or_else a (or_else b c)
or_else_assoc none b c = refl
or_else_assoc (some a) b c = refl

get-write_override :
    (path : String) (r : Result OverrideError Override) (s t : List (String × Value))
    → write_override r s ≡ ok t
    → get path t ≡ or_else (value_at path r) (get path s)
get-write_override path (err e) s t h = cc
get-write_override path (ok none) s t h = ap (get path) (sym (ok-injective s t h))
get-write_override path (ok (some (p, value))) s t h =
    ap (get path) (sym (ok-injective (put p value s) t h)) ∙ (get-put p path value s ∙ written)
  where
    written :
        (if p == path then some value else get path s)
        ≡ or_else (if p == path then some value else none) (get path s)
    written = ground arith

get-for_each :
    {A : Type 0} (read : A → Result OverrideError Override) (path : String) (xs : List A)
    (s t : List (String × Value))
    → for_each (λ a. write_override (read a)) xs s ≡ ok t
    → get path t ≡ or_else (last_given read path xs) (get path s)
unfolding last_given
get-for_each read path [] s t h = ap (get path) (sym (ok-injective s t h))
get-for_each read path (a ∷ more) s t h = elim (Result-cases (write_override (read a) s)) [
  | inr (e, w) ↦ cc (rw (for_each, w) at h)
  | inl (next, w) ↦
      get-for_each read path more next t (rw (for_each, w) at h)
      ∙ (ap (or_else (last_given read path more)) (get-write_override path (read a) s next w)
          ∙ sym (or_else_assoc (last_given read path more) (value_at path (read a)) (get path s)))
]

-- Where `build_field_overrides` returns, it gives to a path what the last `--set` item of that path
-- gives to it; without one, what the last named flag of that path gives to it, where its value is
-- not None; and else nothing.
pub get-build_field_overrides :
    (yaml : Yaml) (named : List (String × Value)) (set_values : List String) (path : String)
    (overrides : List (String × Value))
    → build_field_overrides yaml named set_values ≡ ok overrides
    → get path overrides
      ≡ or_else
          (last_given (set_override yaml) path set_values)
          (last_given flag_override path named)
unfolding build_field_overrides get
get-build_field_overrides yaml named set_values path overrides h =
    elim (Result-cases (for_each (λ flag. write_override (flag_override flag)) named [])) [
      | inr (e, w) ↦ cc (rw (w, build_field_overrides) at h)
      | inl (flags, w) ↦
          get-for_each (set_override yaml) path set_values flags overrides
            (rw (w, build_field_overrides) at h)
          ∙ ap (or_else (last_given (set_override yaml) path set_values))
              (get-for_each flag_override path named [] flags w ∙ or_else_none _)
    ]
  where
    or_else_none : {A : Type 0} (o : Option A) → or_else o none ≡ o
    or_else_none none = refl
    or_else_none (some a) = refl
