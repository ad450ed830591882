-- ===== src/RiskPolicy/Fields.antt =====
-- `resolve_field_path` of policy/rules.py. A segment of digits is one of ASCII digits.
use Prim.Native.Nat.{◌-◌}
use Prim.Native.Char.{Char, code}
use db_platform.Base.{
  ℕ, zero, suc, ◌+◌, ◌*◌, String, Bool, true, ◌&&◌, not, Option, none, some, List, [], ◌∷◌, leb,
  eqb, ◌==◌, if◌then◌else◌,
}
use db_platform.Base.Value.{Value, Items, null, items, mapping, nil, cons, get_field}

abbrev push_char : Char → List String → List String
push_char c [] = String.◌∷◌ c "" ∷ []
push_char c (s ∷ segments) = String.◌∷◌ c s ∷ segments

-- `path.split(".")`
unfoldable pub split_dots : String → List String
split_dots String.[] = "" ∷ []
split_dots (String.◌∷◌ c s) =
    let segments = split_dots s in if eqb (code c) 46 then "" ∷ segments else push_char c segments

unfoldable pub all_digits : String → Bool
all_digits String.[] = true
all_digits (String.◌∷◌ c s) = leb 48 (code c) && leb (code c) 57 && all_digits s

-- `int(segment)`, from the digits that are read already
unfoldable pub read_digits : ℕ → String → ℕ
read_digits n String.[] = n
read_digits n (String.◌∷◌ c s) = read_digits (10 * n + (code c - 48)) s

unfoldable pub nth : ℕ → Items → Option Value
nth n nil = none
nth zero (cons x xs) = some x
nth (suc n) (cons x xs) = nth n xs

unfoldable pub step_into : Value → String → Option Value
unfolding all_digits read_digits nth get_field
step_into (mapping d) segment = get_field segment d
step_into (items xs) segment =
    if not (segment == "") && all_digits segment then nth (read_digits 0 segment) xs else none
step_into _ segment = none

unfoldable pub resolve : Value → List String → Value
unfolding step_into
resolve current [] = current
resolve current (segment ∷ segments) = elim (step_into current segment) [
  | none ↦ null
  | some v ↦ resolve v segments
]

unfoldable pub resolve_field_path : Value → String → Value
unfolding resolve split_dots
resolve_field_path document path = resolve document (split_dots path)
