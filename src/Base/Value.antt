-- ===== src/Base/Value.antt =====
-- The values of a YAML or JSON document, which the source types as `Any`.
use Prim.Native.String.{String}
use mathlib.Core.Bool.{Bool, true, false, not}
use mathlib.Core.Option.{Option, none, some}
use mathlib.Core.Path.{◌≡◌, refl}
use native.Mathlib.Omega.{arith}
use text.Mathlib.Text.{◌==◌}
use text.Mathlib.TextEquality.{eq_iff}
use db_platform.Base.Tests.{if◌then◌else◌}
use db_platform.Base.Number.{Number, is_zero}

mutual
  pub data Value : Type 0 where
    null : Value
    boolean : Bool → Value
    number : Number → Value
    str : String → Value
    items : Items → Value
    mapping : Fields → Value

  pub data Items : Type 0 where
    nil : Items
    cons : Value → Items → Items

  pub data Fields : Type 0 where
    end : Fields
    field : String → Value → Fields → Fields

-- `d.get(k)` of a mapping
unfoldable pub get_field : String → Fields → Option Value
get_field k end = none
get_field k (field j v d) = if j == k then some v else get_field k d

-- `d[k] = v`
unfoldable pub put_field : String → Value → Fields → Fields
put_field k v end = field k v end
put_field k v (field j w d) = if j == k then field k v d else field j w (put_field k v d)

pub get_field-put_field :
    (k j : String) (v : Value) (d : Fields)
    → get_field j (put_field k v d) ≡ (if k == j then some v else get_field j d)
unfolding get_field put_field
get_field-put_field k j v end = refl
get_field-put_field k j v (field i w d) =
    ground (arith, eq_iff k j, eq_iff i k, eq_iff i j, get_field-put_field k j v d)

-- `bool(v)`
unfoldable pub truthy : Value → Bool
unfolding is_zero
truthy null = false
truthy (boolean b) = b
truthy (number x) = not (is_zero x)
truthy (str s) = not (s == "")
truthy (items nil) = false
truthy (items (cons _ _)) = true
truthy (mapping end) = false
truthy (mapping (field _ _ _)) = true
