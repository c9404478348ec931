-- ===== src/Common/Js.antt =====
-- Dynamic values of JavaScript, as they reach a config parser.
use Prim.Native.Nat.{ℕ}
use Prim.Native.String.{String}
use mathlib.Core.List.{List, [], ◌∷◌}
use mathlib.Core.Bool.{Bool}
use text.Mathlib.Text.{◌==◌}
use lightbridge_opencode_too.Common.Tests.{if◌then◌else◌}
use lightbridge_opencode_too.Common.Int.{ℤ}
use lightbridge_opencode_too.Common.Text.{Text}

-- A finite double is its floor and what is left above it, counted in units of 2^-1074, of which
-- every finite double is a multiple.
pub data Number : Type 0 where
  finite : (floor : ℤ) (rest : ℕ) → Number
  not_finite : Number

mutual
  pub data Value : Type 0 where
    undefined : Value
    null : Value
    boolean : Bool → Value
    number : Number → Value
    string : Text → Value
    array : Items → Value
    object : Fields → Value

  pub data Items : Type 0 where
    nil : Items
    cons : Value → Items → Items

  pub data Fields : Type 0 where
    end : Fields
    field : String → Value → Fields → Fields

abbrev pub items : Items → List Value
items nil = []
items (cons v vs) = v ∷ items vs

-- `o.key`, undefined where the object has no such property.
unfoldable pub get : String → Fields → Value
get key end = undefined
get key (field k v fs) = let rest = get key fs in if k == key then v else rest
