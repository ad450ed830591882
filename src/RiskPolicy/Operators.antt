-- ===== src/RiskPolicy/Operators.antt =====
-- The operators of policy/rules.py on the values of a document: Python's equality, order,
-- membership and length, with `bad_type` for its TypeError. `re.match` is an argument.
use Prim.Native.Nat.{Ordering}
use Prim.Native.String.{compare}
use db_platform.Base.{
  ℕ, suc, String, Bool, true, false, not, ◌&&◌, ◌||◌, Option, none, some, List, [], ◌∷◌, eqb,
  starts_with, ◌==◌, if◌then◌else◌,
}
use db_platform.Base.Frac.{whole}
use db_platform.Base.Number.{Number, plus, lt_number, eq_number}
use db_platform.Base.Result.{Result, ok, err}
use db_platform.Base.Value.{
  Value, Items, Fields, null, boolean, number, str, items, mapping, nil, cons, end, field,
  get_field,
}
use db_platform.RiskPolicy.{PolicyError, unknown_operator, bad_type}

-- True is 1 and False is 0.
abbrev of_bool : Bool → Number
of_bool b = plus (whole (if b then 1 else 0))

unfoldable pub as_number : Value → Option Number
as_number (boolean b) = some (of_bool b)
as_number (number x) = some x
as_number _ = none

unfoldable pub same_number : Number → Value → Bool
unfolding as_number eq_number
same_number x v = elim (as_number v) [ none ↦ false | some y ↦ eq_number x y ]

unfoldable pub count_items : Items → ℕ
count_items nil = 0
count_items (cons _ xs) = suc (count_items xs)

unfoldable pub count_fields : Fields → ℕ
count_fields end = 0
count_fields (field _ _ d) = suc (count_fields d)

unfoldable pub count_chars : String → ℕ
count_chars String.[] = 0
count_chars (String.◌∷◌ _ s) = suc (count_chars s)

-- `a == b`
unfoldable mutual
  unfolding same_number count_fields get_field

  pub same_value : Value → Value → Bool
  same_value null v = elim v [ null ↦ true | _ ↦ false ]
  same_value (boolean b) v = same_number (of_bool b) v
  same_value (number x) v = same_number x v
  same_value (str s) v = elim v [ str t ↦ s == t | _ ↦ false ]
  same_value (items xs) v = elim v [ items ys ↦ same_items xs ys | _ ↦ false ]
  same_value (mapping d) v = elim v [
    | mapping e ↦ eqb (count_fields d) (count_fields e) && same_fields d e
    | _ ↦ false
  ]

  pub same_items : Items → Items → Bool
  same_items nil ys = elim ys [ nil ↦ true | cons _ _ ↦ false ]
  same_items (cons x xs) ys = elim ys [
    | nil ↦ false
    | cons y ys' ↦ same_value x y && same_items xs ys'
  ]

  pub same_fields : Fields → Fields → Bool
  same_fields end e = true
  same_fields (field k v d) e =
      (elim (get_field k e) [ none ↦ false | some w ↦ same_value v w ]) && same_fields d e

unfoldable pub order_numbers : Number → Number → Ordering
unfolding lt_number
order_numbers a b =
    if lt_number a b then Ordering.lt else if lt_number b a then Ordering.gt else Ordering.eq

-- The order that `<`, `<=`, `>` and `>=` decide by: of numbers, of texts, and of lists at the first
-- items that are not equal.
unfoldable mutual
  unfolding same_value as_number order_numbers

  pub compare_values : Value → Value → Result PolicyError Ordering
  compare_values null v = err bad_type
  compare_values (boolean b) v = elim (as_number v) [
    | none ↦ err bad_type
    | some y ↦ ok (order_numbers (of_bool b) y)
  ]
  compare_values (number x) v = elim (as_number v) [
    | none ↦ err bad_type
    | some y ↦ ok (order_numbers x y)
  ]
  compare_values (str s) v = elim v [ str t ↦ ok (compare s t) | _ ↦ err bad_type ]
  compare_values (items xs) v = elim v [ items ys ↦ compare_items xs ys | _ ↦ err bad_type ]
  compare_values (mapping d) v = err bad_type

  pub compare_items : Items → Items → Result PolicyError Ordering
  compare_items nil ys = elim ys [ nil ↦ ok Ordering.eq | cons _ _ ↦ ok Ordering.lt ]
  compare_items (cons x xs) ys = elim ys [
    | nil ↦ ok Ordering.gt
    | cons y ys' ↦
        let here = compare_values x y in
        let rest = compare_items xs ys' in if same_value x y then rest else here
  ]

unfoldable pub has_item : Value → Items → Bool
unfolding same_value
has_item v nil = false
has_item v (cons x xs) = same_value x v || has_item v xs

-- `s in t` of texts
unfoldable pub contained : String → String → Bool
contained s String.[] = s == ""
contained s (String.◌∷◌ c t) = starts_with (String.◌∷◌ c t) s || contained s t

abbrev has_key : String → Fields → Bool
has_key k d = elim (get_field k d) [ none ↦ false | some _ ↦ true ]

-- `v in container`; a list or a mapping is no key.
unfoldable pub is_in : Value → Value → Result PolicyError Bool
unfolding has_item contained get_field
is_in v (items xs) = ok (has_item v xs)
is_in v (str t) = elim v [ str s ↦ ok (contained s t) | _ ↦ err bad_type ]
is_in v (mapping d) = elim v [
  | str k ↦ ok (has_key k d)
  | items _ ↦ err bad_type
  | mapping _ ↦ err bad_type
  | _ ↦ ok false
]
is_in v _ = err bad_type

-- `len(v)`
unfoldable pub length_of : Value → Result PolicyError ℕ
unfolding count_items count_fields count_chars
length_of (str s) = ok (count_chars s)
length_of (items xs) = ok (count_items xs)
length_of (mapping d) = ok (count_fields d)
length_of _ = err bad_type

pub data Operator : Type 0 where
  equals not_equals gte lte gt lt is_member is_no_member contains min_length regex : Operator

-- `OPERATORS`
abbrev pub operators : List (String × Operator)
operators =
    ("equals", equals)
    ∷ ("not_equals", not_equals)
    ∷ ("gte", gte)
    ∷ ("lte", lte)
    ∷ ("gt", gt)
    ∷ ("lt", lt)
    ∷ ("in", is_member)
    ∷ ("not_in", is_no_member)
    ∷ ("contains", contains)
    ∷ ("min_length", min_length)
    ∷ ("regex", regex)
    ∷ []

unfoldable pub operator_named : String → List (String × Operator) → Option Operator
operator_named name [] = none
operator_named name ((n, op) ∷ ops) = if n == name then some op else operator_named name ops

abbrev pub when_order : (Ordering → Bool) → Result PolicyError Ordering → Result PolicyError Bool
when_order p (ok o) = ok (p o)
when_order p (err e) = err e

abbrev negated : Result PolicyError Bool → Result PolicyError Bool
negated (ok b) = ok (not b)
negated (err e) = err e

-- `actual is not None and ...`
abbrev pub unless_null : Value → Result PolicyError Bool → Result PolicyError Bool
unless_null null r = ok false
unless_null _ r = r

abbrev at_least : Ordering → Bool
at_least o = elim o [ Ordering.lt ↦ false | _ ↦ true ]

abbrev pub at_most : Ordering → Bool
at_most o = elim o [ Ordering.gt ↦ false | _ ↦ true ]

abbrev over : Ordering → Bool
over o = elim o [ Ordering.gt ↦ true | _ ↦ false ]

abbrev under : Ordering → Bool
under o = elim o [ Ordering.lt ↦ true | _ ↦ false ]

-- What `re.match(expected, str(actual)) is not None` gives or raises.
abbrev pub Matcher : Type 0
Matcher = Value → Value → Result PolicyError Bool

unfoldable pub apply_operator : Matcher → Operator → Value → Value → Result PolicyError Bool
unfolding same_value compare_values is_in length_of
apply_operator matches equals actual expected = ok (same_value actual expected)
apply_operator matches not_equals actual expected = ok (not (same_value actual expected))
apply_operator matches gte actual expected =
    unless_null actual (when_order at_least (compare_values actual expected))
apply_operator matches lte actual expected =
    unless_null actual (when_order at_most (compare_values actual expected))
apply_operator matches gt actual expected =
    unless_null actual (when_order over (compare_values actual expected))
apply_operator matches lt actual expected =
    unless_null actual (when_order under (compare_values actual expected))
apply_operator matches is_member actual expected = is_in actual expected
apply_operator matches is_no_member actual expected = negated (is_in actual expected)
apply_operator matches contains actual expected = unless_null actual (is_in expected actual)
apply_operator matches min_length actual expected = unless_null actual (elim (length_of actual) [
  | err e ↦ err e
  | ok n ↦ when_order at_least (compare_values (number (plus (whole n))) expected)
])
apply_operator matches regex actual expected = unless_null actual (matches actual expected)

unfoldable pub evaluate_operator : Matcher → String → Value → Value → Result PolicyError Bool
unfolding operator_named apply_operator
evaluate_operator matches operator actual expected = elim (operator_named operator operators) [
  | none ↦ err (unknown_operator operator)
  | some op ↦ apply_operator matches op actual expected
]
