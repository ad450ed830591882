-- ===== src/Overrides.antt =====
-- `set_field_path` of src/dbre_platform/config/overrides.py, which writes a value at a dotted path of
-- a request document, and `resolve_field_path` of src/dbre_platform/policy/rules.py, which reads
-- one. The document after the call is returned, or the ConfigurationError.
pub mod Flags
use Prim.Native.Char.{code}
use mathlib.Core.Path.{subst}
use db_platform.Base.{
  String, eqb, ◌≡◌, refl, false, none, some, List, [], ◌∷◌, arith, any, ◌==◌, eq_iff, if◌then◌else◌,
  Bool-cases, inl, inr,
}
use db_platform.Base.Result.{Result, ok, err, ok-injective, Result-cases}
use db_platform.Base.Value.{
  Value, Fields, null, mapping, end, get_field, put_field, get_field-put_field,
}
use db_platform.RiskPolicy.Fields.{split_dots}

pub data ConfigurationError : Type 0 where
  empty_segment : ConfigurationError
  not_a_mapping : String → ConfigurationError

-- `current.setdefault(part, {})`, which has to be a mapping
unfoldable pub enter_field : String → Fields → Result ConfigurationError Fields
unfolding get_field
enter_field part current = elim (get_field part current) [
  | none ↦ ok end
  | some v ↦ elim v [ mapping d ↦ ok d | _ ↦ err (not_a_mapping part) ]
]

-- The loop over the parts, and the write at the last one.
unfoldable pub set_parts : List String → Value → Fields → Result ConfigurationError Fields
unfolding enter_field put_field
set_parts [] value current = ok current
set_parts (part ∷ []) value current = ok (put_field part value current)
set_parts (part ∷ next ∷ parts) value current = elim (enter_field part current) [
  | err e ↦ err e
  | ok inner ↦ elim (set_parts (next ∷ parts) value inner) [
    | err e ↦ err e
    | ok inner' ↦ ok (put_field part (mapping inner') current)
  ]
]

unfoldable pub set_field_path : Fields → String → Value → Result ConfigurationError Fields
unfolding set_parts split_dots
set_field_path document path value =
    if any (λ part. part == "") (split_dots path)
    then err empty_segment
    else set_parts (split_dots path) value document

-- The loop of `resolve_field_path` of the provisioning policies, which enters mappings only.
unfoldable pub read_parts : Value → List String → Value
unfolding get_field
read_parts current [] = current
read_parts current (segment ∷ segments) = elim current [
  | mapping d ↦ elim (get_field segment d) [ none ↦ null | some v ↦ read_parts v segments ]
  | _ ↦ null
]

unfoldable pub read_field_path : Fields → String → Value
unfolding read_parts split_dots
read_field_path document path = read_parts (mapping document) (split_dots path)

get_field-written : (k : String) (v : Value) (d : Fields) → get_field k (put_field k v d) ≡ some v
get_field-written k v d = ground (arith, get_field-put_field k k v d, eq_iff k k)

read_parts-set_parts :
    (part : String) (parts : List String) (value : Value) (d d' : Fields)
    → set_parts (part ∷ parts) value d ≡ ok d'
    → read_parts (mapping d') (part ∷ parts) ≡ value
unfolding set_parts read_parts
read_parts-set_parts part [] value d d' e =
    rw (← ok-injective (put_field part value d) d' e, read_parts, get_field-written part value d)
      refl
read_parts-set_parts part (next ∷ parts) value d d' e = elim (Result-cases (enter_field part d)) [
  | inr (x, bad) ↦ cc (rw (bad, set_parts) at e)
  | inl (inner, entered) ↦ elim (Result-cases (set_parts (next ∷ parts) value inner)) [
    | inr (x, bad) ↦ cc (rw (entered, set_parts, bad) at e)
    | inl (inner', made) ↦
        let same : put_field part (mapping inner') d ≡ d' =
          ok-injective _ _ (rw (entered, set_parts, made) at e) in
        subst (λ x. read_parts (mapping x) (part ∷ next ∷ parts) ≡ value) same
          (rw (read_parts, get_field-written part (mapping inner') d)
            (read_parts-set_parts next parts value inner inner' made))
  ]
]

split_dots-cases :
    (path : String) → (part : String) × (parts : List String) × (split_dots path ≡ part ∷ parts)
unfolding split_dots
split_dots-cases String.[] = ("", [], refl)
split_dots-cases (String.◌∷◌ c s) =
    let (part, parts, e) = split_dots-cases s in
    elim (Bool-cases (eqb (code c) 46)) [
      | inl dot ↦ ("", part ∷ parts, rw (dot, e) refl)
      | inr other ↦ (String.◌∷◌ c part, parts, rw (other, e) refl)
    ]

-- A value that `set_field_path` writes at a path is what `resolve_field_path` reads there.
pub read-set_field_path :
    (path : String) (value : Value) (document document' : Fields)
    → set_field_path document path value ≡ ok document'
    → read_field_path document' path ≡ value
unfolding set_field_path read_field_path
read-set_field_path path value document document' e =
    let (part, parts, split) = split_dots-cases path in
    elim (Bool-cases (any (λ s. s == "") (split_dots path))) [
      | inl empty ↦ cc (rw (empty, set_field_path) at e)
      | inr full ↦ rw split (
          read_parts-set_parts part parts value document document'
            (rw (split, set_field_path) at (rw (full, set_field_path) at e)))
    ]

set_parts-end :
    (parts : List String) (value : Value) → (d : Fields) × (set_parts parts value end ≡ ok d)
unfolding set_parts enter_field get_field
set_parts-end [] value = (end, refl)
set_parts-end (part ∷ []) value = (put_field part value end, refl)
set_parts-end (part ∷ next ∷ parts) value =
    let (inner, e) = set_parts-end (next ∷ parts) value in
    (put_field part (mapping inner) end, rw (e, set_parts) refl)

-- In a document without the first segment of a path, `set_field_path` writes at the path, where no
-- segment is empty: the mappings on the way are made.
pub set_field_path-returns :
    (path part : String) (parts : List String) (value : Value) (document : Fields)
    → split_dots path ≡ part ∷ parts
    → any (λ s. s == "") (split_dots path) ≡ false
    → get_field part document ≡ none
    → (document' : Fields) × (set_field_path document path value ≡ ok document')
unfolding set_field_path set_parts enter_field
set_field_path-returns path part [] value document split full new =
    (put_field part value document, rw (full, set_field_path, split) refl)
set_field_path-returns path part (next ∷ parts) value document split full new =
    let (inner, e) = set_parts-end (next ∷ parts) value in
    (
      put_field part (mapping inner) document,
      rw (full, set_field_path, split, set_parts, enter_field, new, e) refl,
    )
