-- ===== src/Ratelimit/Headers.antt =====
-- packages/opencode-ratelimit/src/headers.ts: the rate-limit headers of a response. The header
-- names come lower-cased; `Date.parse` is a parameter. Integers are rounded to doubles where the code
-- reads, multiplies and adds them; an integer too large for a double is not finite where
-- parseInteger tests it. A Retry-After or a product that large is Infinity in the code and stays a
-- number here, and the difference of a date and the clock is exact.
pub mod Integers
pub mod Snapshots
use lightbridge_opencode_too.Common.{
  ℕ, zero, suc, ◌+◌, ◌-◌, ◌/◌, ◌%◌, ◌*◌, ◌^◌, Bool, true, false, ◌&&◌, Option, none, some, List, [],
  ◌∷◌, ◌++◌, ltb, leb, ◌==◌, if◌then◌else◌,
}
use lightbridge_opencode_too.Common.Int.{ℤ, pos, negsuc, sub_ℕ, ◌+ℤ◌, ◌-ℤ◌, times, max_ℤ}
use lightbridge_opencode_too.Common.Text.{Text, codes, trim, all_digits, digits_from, before}
use lightbridge_opencode_too.Ratelimit.{Snapshot}

-- The least magnitude that rounds to infinity.
infinity_bound : ℕ
infinity_bound = 2 ^ 1024 - 2 ^ 970

unfoldable pub is_finite : ℕ → Bool
unfolding infinity_bound
is_finite n = ltb n infinity_bound

-- The multiple of the unit that is nearest to a number, the even one of two.
round_at : ℕ → ℕ → ℕ
round_at unit n =
    let below = (n / unit) * unit in
    if ltb (2 * (n % unit)) unit
    then below
    else if ltb unit (2 * (n % unit))
    then below + unit
    else if ((n / unit) % 2) == 0
    then below
    else below + unit

-- The unit doubles until the number has 53 bits over it, with fuel for the doublings.
unfoldable pub round_from : ℕ → ℕ → ℕ → ℕ
unfolding round_at
round_from zero unit n = n
round_from (suc fuel) unit n =
    let larger = round_from fuel (2 * unit) n in
    if ltb n (unit * 2 ^ 53) then round_at unit n else larger

-- The double nearest to a natural number. Units up to 2^971 cover every finite double.
unfoldable pub double_of : ℕ → ℕ
double_of n = let large = round_from 971 2 n in if leb n (2 ^ 53) then n else large

unfoldable pub round : ℤ → ℤ
round (pos n) = pos (double_of n)
round (negsuc n) = sub_ℕ 0 (double_of (suc n))

-- `/^\d+$/`.
unfoldable pub is_digits : Text → Bool
is_digits [] = false
is_digits (c ∷ s) = all_digits (c ∷ s)

-- `Number.parseInt` of a text of the form `-?\d+`, undefined where that is not finite.
unfoldable pub integer_of : Text → Option ℤ
unfolding is_digits is_finite digits_from all_digits
integer_of [] = none
integer_of (c ∷ s) =
    if c == b'-'
    then if is_digits s && is_finite (digits_from 0 s)
      then some (sub_ℕ 0 (double_of (digits_from 0 s)))
      else none
    else if is_digits (c ∷ s) && is_finite (digits_from 0 (c ∷ s))
    then some (pos (double_of (digits_from 0 (c ∷ s))))
    else none

unfoldable pub parse_integer : Option Text → Option ℤ
unfolding integer_of trim
parse_integer none = none
parse_integer (some raw) = integer_of (trim raw)

unfoldable pub parse_limit : Option Text → Option ℤ
unfolding parse_integer before
parse_limit none = none
parse_limit (some raw) = parse_integer (some (before b';' (before b',' raw)))

-- `nowMs + resetSeconds * 1000`, where the header gives the seconds.
unfoldable pub reset_at : Option ℤ → ℤ → Option ℤ
reset_at none now_ms = none
reset_at (some seconds) now_ms = some (round (now_ms +ℤ round (times seconds 1000)))

until_date : Option ℤ → ℤ → Option ℤ
until_date none now_ms = none
until_date (some date_ms) now_ms = some (max_ℤ (pos 0) (date_ms -ℤ now_ms))

module _ (date_parse : Text → Option ℤ) where
  retry_after_of : Text → ℤ → Option ℤ
  unfolding is_digits until_date
  retry_after_of [] now_ms = none
  retry_after_of (c ∷ s) now_ms =
      if is_digits (c ∷ s)
      then some (round (pos (double_of (digits_from 0 (c ∷ s)) * 1000)))
      else until_date (date_parse (c ∷ s)) now_ms

  unfoldable pub parse_retry_after : Option Text → ℤ → Option ℤ
  unfolding retry_after_of trim
  parse_retry_after none now_ms = none
  parse_retry_after (some raw) now_ms = retry_after_of (trim raw) now_ms

  unfoldable pub parse_rate_limit : (Text → Option Text) → Text → ℤ → Snapshot
  unfolding parse_limit parse_integer reset_at parse_retry_after
  parse_rate_limit headers prefix now_ms =
      let reset_seconds = parse_integer (headers (prefix ++ codes "-reset")) in
      record {
        limit = parse_limit (headers (prefix ++ codes "-limit"));
        remaining = parse_integer (headers (prefix ++ codes "-remaining"));
        reset_seconds = reset_seconds;
        reset_at_ms = reset_at reset_seconds now_ms;
        retry_after_ms = parse_retry_after (headers (codes "retry-after")) now_ms;
      }
