-- ===== src/Devtools/Radix.antt =====
-- packages/opencode-devtools/src/groups/math.ts: integers in any radix. A number above 2^53 stands for
-- the double nearest to it; its text, toString, is a parameter.
pub mod RoundTrip
use lightbridge_opencode_too.Common.{
  ℕ, zero, suc, ◌+◌, ◌-◌, ◌*◌, ◌/◌, ◌%◌, ◌^◌, Bool, true, false, ◌&&◌, ◌||◌, Option, none, some,
  List, [], ◌∷◌, ◌++◌, leb, ltb, ◌==◌, if◌then◌else◌,
}
use lightbridge_opencode_too.Common.Int.{ℤ, pos}
use lightbridge_opencode_too.Common.Text.{Text, codes, trim}
use lightbridge_opencode_too.Common.Js.{Number, finite}

-- What parseInt gives: a natural number up to 2^53, the double nearest to a larger one, or NaN.
pub data Parsed : Type 0 where
  exact : (n : ℕ) → Parsed
  nearest : (n : ℕ) → Parsed
  not_a_number : Parsed

-- The digit that parseInt reads, 36 where there is none.
unfoldable pub digit_value : ℕ → ℕ
digit_value c =
    if leb 48 c && ltb c 58
    then c - 48
    else if leb 97 c && ltb c 123
    then c - 87
    else if leb 65 c && ltb c 91
    then c - 55
    else 36

-- `toLowerCase`, of the code units that have a letter of ASCII as their lower case: A to Z and the
-- Kelvin sign.
unfoldable pub lower : ℕ → ℕ
lower c = if leb 65 c && ltb c 91 then c + 32 else if c == 8490 then 107 else c

unfoldable pub is_legal : ℕ → ℕ → Bool
unfolding digit_value lower
is_legal radix c = ltb (digit_value (lower c)) radix

unfoldable pub all_legal : ℕ → Text → Bool
unfolding is_legal
all_legal radix [] = true
all_legal radix (c ∷ s) = let rest = all_legal radix s in if is_legal radix c then rest else false

-- `/^0[box]/i`.
is_mark : ℕ → Bool
is_mark c =
    ((c == b'b') || ((c == b'o') || (c == b'x'))) || ((c == b'B') || ((c == b'O') || (c == b'X')))

unfoldable pub strip_prefix : Text → Text
unfolding is_mark
strip_prefix (z ∷ c ∷ s) = if (z == 48) && is_mark c then s else z ∷ c ∷ s
strip_prefix s = s

-- parseInt stops at the first code unit that is no digit.
unfoldable pub read_digits : ℕ → ℕ → Text → ℕ
unfolding digit_value
read_digits radix n [] = n
read_digits radix n (c ∷ s) =
    let rest = read_digits radix (n * radix + digit_value c) s in
    if ltb (digit_value c) radix then rest else n

of_value : ℕ → Parsed
of_value n = if leb n (2 ^ 53) then exact n else nearest n

-- `Number.parseInt` of a text of legal digits, which has no sign, space or prefix to skip.
unfoldable pub parse_int : ℕ → Text → Parsed
unfolding read_digits of_value digit_value
parse_int radix [] = not_a_number
parse_int radix (c ∷ s) =
    if ltb (digit_value c) radix then of_value (read_digits radix 0 (c ∷ s)) else not_a_number

parse_trimmed : ℕ → Text → Option Parsed
unfolding all_legal parse_int
parse_trimmed radix [] = none
parse_trimmed radix (c ∷ s) =
    if all_legal radix (c ∷ s) then some (parse_int radix (c ∷ s)) else none

-- None is an error that it throws.
unfoldable pub parse_in_radix : Text → ℕ → Option Parsed
unfolding parse_trimmed strip_prefix
parse_in_radix value radix = parse_trimmed radix (strip_prefix (trim value))

unfoldable pub digit_char : ℕ → ℕ
digit_char d = if ltb d 10 then 48 + d else 87 + d

-- `toString(radix)` of a natural number up to 2^53, with fuel for its digits.
unfoldable pub print_digits : ℕ → ℕ → ℕ → Text
unfolding digit_char
print_digits radix zero n = []
print_digits radix (suc f) n =
    let more = print_digits radix f (n / radix) ++ digit_char (n % radix) ∷ [] in
    if ltb n radix then digit_char n ∷ [] else more

-- An integer from 2 to 36; none is an error that the tool throws.
unfoldable pub base_of : Number → Option ℕ
base_of (finite (pos b) zero) = if leb 2 b && leb b 36 then some b else none
base_of v = none

pub record Conversion : Type 0 where
  pub decimal : Parsed
  pub result : Text
  pub binary : Text
  pub octal : Text
  pub hex : Text

module _ (approximate : ℕ → ℕ → Text) where
  unfoldable pub to_string : Parsed → ℕ → Text
  unfolding print_digits
  to_string (exact n) radix = print_digits radix (suc n) n
  to_string (nearest n) radix = approximate n radix
  to_string not_a_number radix = codes "NaN"

  conversion : ℕ → Option Parsed → Option Conversion
  unfolding to_string
  conversion to_base none = none
  conversion to_base (some n) = some (record {
    decimal = n;
    result = to_string n to_base;
    binary = to_string n 2;
    octal = to_string n 8;
    hex = to_string n 16;
  })

  convert : Text → Option ℕ → Option ℕ → Option Conversion
  unfolding conversion parse_in_radix
  convert value (some from_base) (some to_base) =
      conversion to_base (parse_in_radix value from_base)
  convert value from_base to_base = none

  -- The handler of math_base, after the types of its arguments have been checked.
  unfoldable pub math_base : Text → Number → Number → Option Conversion
  unfolding convert base_of
  math_base value from_base to_base = convert value (base_of from_base) (base_of to_base)
