-- ===== src/Examples/Requests.antt =====
-- A request document whose CPU request is set, and some overrides by flags.
use db_platform.Base.{◌≡◌, refl, String, List, [], ◌∷◌, any, ◌==◌, false, none, some, or_else}
use db_platform.Base.Frac.{whole}
use db_platform.Base.Number.{plus}
use db_platform.Base.Result.{ok}
use db_platform.Base.Value.{
  Value, null, Fields, number, str, mapping, end, field, get_field, put_field,
}
use db_platform.RiskPolicy.Fields.{split_dots}
use db_platform.Base.Dict.{get}
use db_platform.Overrides.Flags.{Yaml, flag_override, set_override, build_field_overrides}
use db_platform.Overrides.Flags.Precedence.{last_given, get-build_field_overrides}
use db_platform.Overrides.{
  enter_field, set_parts, set_field_path, read_field_path, read-set_field_path,
}

abbrev request : Fields
request =
    field "metadata" (mapping (field "name" (str "orders") end))
      (field "spec" (mapping (field "resources" (mapping end) end)) end)

abbrev larger : Fields
larger = field "metadata" (mapping (field "name" (str "orders") end)) (
    field "spec"
      (mapping (field "resources" (mapping (field "cpu" (number (plus (whole 2))) end)) end)) end)

cpu_set : set_field_path request "spec.resources.cpu" (number (plus (whole 2))) ≡ ok larger
unfolding set_field_path split_dots set_parts enter_field get_field put_field
cpu_set = refl

read-set_field_path_example : read_field_path larger "spec.resources.cpu" ≡ number (plus (whole 2))
read-set_field_path_example =
    read-set_field_path "spec.resources.cpu" (number (plus (whole 2))) request larger cpu_set

labels_split : split_dots "labels.team" ≡ "labels" ∷ "team" ∷ []
unfolding split_dots
labels_split = refl

labels_full : any (λ s. s == "") (split_dots "labels.team") ≡ false
unfolding split_dots
labels_full = refl

labels_new : get_field "labels" request ≡ none
unfolding get_field
labels_new = refl

-- A YAML reader that takes every text for a string.
abbrev plain_yaml : Yaml
plain_yaml raw = some (str raw)

abbrev flags : List (String × Value)
flags = ("name", str "orders") ∷ ("namespace", null) ∷ ("cpu_limit", str "2") ∷ []

abbrev set_items : List String
set_items = "metadata.name=first" ∷ "metadata.name = billing" ∷ []

get-build_field_overrides_example :
    get "metadata.name"
      (("metadata.name", str " billing") ∷ ("spec.resources.cpu_limit", str "2") ∷ [])
    ≡ or_else
        (last_given (set_override plain_yaml) "metadata.name" set_items)
        (last_given flag_override "metadata.name" flags)
unfolding build_field_overrides
get-build_field_overrides_example =
    get-build_field_overrides plain_yaml flags set_items "metadata.name"
      (("metadata.name", str " billing") ∷ ("spec.resources.cpu_limit", str "2") ∷ []) refl
