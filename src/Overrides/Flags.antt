-- ===== src/Overrides/Flags.antt =====
-- The rest of config/overrides.py of src/dbre_platform: the overrides of a request that come from
-- named flags and from `--set`, and the additional extensions. `yaml.safe_load` is an argument, with
-- `none` for a YAMLError; a TypeError is what `list` raises for a value that is no collection.
pub mod Precedence
use Prim.Native.String
use db_platform.Base.{
  String, Bool, true, false, ◌≡◌, refl, ◌∙◌, ap, Option, none, some, List, [], ◌∷◌, arith, ◌==◌,
  eq_iff, if◌then◌else◌, Bool-cases, Option-cases, inl, inr, or_else, is_empty,
}
use db_platform.Base.Dict.{get, put, get-put}
use db_platform.Base.Result.{Result, ok, err, ◌>>=◌, for_each, ok-injective, Result-cases}
use db_platform.Base.Value.{
  Value, Items, Fields, nil, cons, field, end, null, str, items, mapping, get_field, put_field,
}
use db_platform.Overrides.{ConfigurationError, set_field_path}
use db_platform.Readiness.{strip}
use db_platform.RiskPolicy.Operators.{has_item}
use db_platform.Sql.Text.{partition_at}

pub data OverrideError : Type 0 where
  in_path : ConfigurationError → OverrideError
  unknown_flag bad_set : String → OverrideError
  spec_not_mapping type_error : OverrideError

abbrev pub Yaml : Type 0
Yaml = String → Option Value

-- `parse_set_value`
unfoldable pub parse_set_value : Yaml → String → Value
parse_set_value yaml raw = elim (yaml raw) [
  | none ↦ str raw
  | some null ↦ str raw
  | some parsed ↦ parsed
]

abbrev apply_override : String × Value → Fields → Result OverrideError Fields
apply_override override document = elim (set_field_path document override.0 override.1) [
  | ok result ↦ ok result
  | err e ↦ err (in_path e)
]

-- `apply_field_overrides`, which leaves the given document as it is
unfoldable pub apply_field_overrides : Fields → List (String × Value) → Result OverrideError Fields
unfolding set_field_path
apply_field_overrides document overrides = for_each apply_override overrides document

-- `list(v)`
unfoldable pub characters : String → Items
characters String.[] = nil
characters (String.◌∷◌ c s) = cons (str (String.◌∷◌ c "")) (characters s)

unfoldable pub keys_of : Fields → Items
keys_of end = nil
keys_of (field k _ d) = cons (str k) (keys_of d)

unfoldable pub list_of : Value → Result OverrideError Items
unfolding characters keys_of
list_of (items xs) = ok xs
list_of (str s) = ok (characters s)
list_of (mapping d) = ok (keys_of d)
list_of _ = err type_error

unfoldable pub append_item : Value → Items → Items
append_item v nil = cons v nil
append_item v (cons x xs) = cons x (append_item v xs)

unfoldable pub add_extensions : List String → Items → Items
unfolding has_item append_item
add_extensions [] existing = existing
add_extensions (extension ∷ extensions) existing =
    add_extensions extensions
      (if has_item (str extension) existing then existing else append_item (str extension) existing)

-- `apply_extension_additions`
unfoldable pub apply_extension_additions : Fields → List String → Result OverrideError Fields
unfolding get_field put_field list_of add_extensions
apply_extension_additions document extensions =
    if is_empty extensions then ok document else elim (get_field "spec" document) [
      | none ↦ extended end
      | some (mapping spec) ↦ extended spec
      | some _ ↦ err spec_not_mapping
    ]
  where
    write : Fields → Items → Result OverrideError Fields
    write spec existing = ok (
        put_field "spec"
          (mapping (put_field "extensions" (items (add_extensions extensions existing)) spec))
          document)

    extended : Fields → Result OverrideError Fields
    extended spec = elim (get_field "extensions" spec) [
      | none ↦ write spec nil
      | some v ↦ list_of v >>= write spec
    ]

-- `NAMED_FIELD_PATHS`
abbrev pub named_field_paths : List (String × String)
named_field_paths =
    ("name", "metadata.name")
    ∷ ("namespace", "spec.namespace")
    ∷ ("cpu_request", "spec.resources.cpu_request")
    ∷ ("memory_request", "spec.resources.memory_request")
    ∷ ("cpu_limit", "spec.resources.cpu_limit")
    ∷ ("memory_limit", "spec.resources.memory_limit")
    ∷ []

abbrev pub Override : Type 0
Override = Option (String × Value)

-- The override that a flag stands for: none, where its value is None.
unfoldable pub flag_override : String × Value → Result OverrideError Override
unfolding get
flag_override (flag, null) = ok none
flag_override (flag, value) = elim (get flag named_field_paths) [
  | none ↦ err (unknown_flag flag)
  | some path ↦ ok (some (path, value))
]

-- The override of an item FIELD=VALUE.
unfoldable pub set_override : Yaml → String → Result OverrideError Override
unfolding parse_set_value partition_at strip
set_override yaml item = elim (partition_at b'=' item) [
  | none ↦ err (bad_set item)
  | some (path, raw_value) ↦
      if strip path == ""
      then err (bad_set item)
      else ok (some (strip path, parse_set_value yaml raw_value))
]

-- `overrides[path] = value`, where there is one.
abbrev pub write_override :
    Result OverrideError Override
    → List (String × Value)
    → Result OverrideError (List (String × Value))
write_override (err e) overrides = err e
write_override (ok none) overrides = ok overrides
write_override (ok (some (path, value))) overrides = ok (put path value overrides)

-- `build_field_overrides`
unfoldable pub build_field_overrides :
    Yaml → List (String × Value) → List String → Result OverrideError (List (String × Value))
unfolding flag_override set_override put
build_field_overrides yaml named set_values =
    for_each (λ flag. write_override (flag_override flag)) named []
    >>= for_each (λ item. write_override (set_override yaml item)) set_values
