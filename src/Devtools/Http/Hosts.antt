-- ===== src/Devtools/Http/Hosts.antt =====
-- packages/opencode-devtools/src/groups/http.ts: `isBlockedHost`, over the code units of a host name.
-- A dotted quad is split at its dots, and its parts are tested one by one. `toLowerCase` is a
-- parameter.
pub mod Private
use lightbridge_opencode_too.Common.{
  ℕ, ◌+◌, ◌-◌, ◌*◌, ◌/◌, ◌%◌, Bool, true, false, not, ◌&&◌, ◌||◌, Option, none, some, List, [], ◌∷◌,
  ◌++◌, leb, ◌==◌, if◌then◌else◌, length,
}
use lightbridge_opencode_too.Common.Text.{
  starts_with, push_front, Text, codes, text_eq, is_digit, all_digits, digits_from,
}
use lightbridge_opencode_too.Common.Decimal.{print_ℕ}

-- The parts of a text between the occurrences of a separator.
split : ℕ → Text → List Text
unfolding push_front
split sep [] = [] ∷ []
split sep (c ∷ s) = let rest = split sep s in if c == sep then [] ∷ rest else push_front c rest

unfoldable pub includes : ℕ → Text → Bool
includes c [] = false
includes c (d ∷ s) = (d == c) || includes c s

is_empty : Text → Bool
is_empty [] = true
is_empty (c ∷ s) = false

-- `\d{1,3}`.
is_octet : Text → Bool
unfolding is_empty all_digits
is_octet s = not (is_empty s) && leb (length s) 3 && all_digits s

-- The first two of exactly four parts, each of up to three digits.
quad : List Text → Option (Text × Text)
unfolding is_octet
quad (a ∷ b ∷ c ∷ d ∷ []) =
    if is_octet a && is_octet b && is_octet c && is_octet d then some (a, b) else none
quad _ = none

dotted : Text → Option (Text × Text)
unfolding quad split
dotted s = quad (split b'.' s)

-- Private, loopback, link-local and shared addresses, by the first two bytes.
unfoldable pub is_private_range : ℕ → ℕ → Bool
is_private_range a b =
    (a == 10 || a == 127 || a == 0)
    || (a == 169 && b == 254)
    || (a == 172 && leb 16 b && leb b 31)
    || (a == 192 && b == 168)
    || (a == 100 && leb 64 b && leb b 127)

private_of : Option (Text × Text) → Bool
unfolding is_private_range digits_from
private_of none = false
private_of (some (a, b)) = is_private_range (digits_from 0 a) (digits_from 0 b)

unfoldable pub is_private_ipv4 : Text → Bool
unfolding private_of dotted
is_private_ipv4 host = private_of (dotted host)

is_some {ℓ} : {A : Type ℓ} → Option A → Bool
is_some none = false
is_some (some a) = true

-- The suffix of a text that is as long as what it is compared to.
ends_with : Text → Text → Bool
ends_with end [] = text_eq end []
ends_with end (c ∷ s) = text_eq end (c ∷ s) || ends_with end s

-- The rest behind a prefix.
after_prefix : Text → Text → Option Text
after_prefix [] s = some s
after_prefix (p ∷ ps) [] = none
after_prefix (p ∷ ps) (c ∷ s) = let rest = after_prefix ps s in if c == p then rest else none

-- `[0-9a-f]`.
is_hex_digit : ℕ → Bool
is_hex_digit c = is_digit c || (leb b'a' c && leb c b'f')

all_hex : Text → Bool
unfolding is_hex_digit is_digit
all_hex [] = true
all_hex (c ∷ s) = is_hex_digit c && all_hex s

-- `[0-9a-f]{1,4}`.
unfoldable pub is_hex : Text → Bool
unfolding is_empty all_hex
is_hex s = not (is_empty s) && leb (length s) 4 && all_hex s

hex_value : ℕ → ℕ
hex_value c = if leb c b'9' then c - b'0' else c - 87

-- `Number.parseInt(s, 16)`, after the value of what stands before.
unfoldable pub hex_from : ℕ → Text → ℕ
unfolding hex_value
hex_from n [] = n
hex_from n (c ∷ s) = hex_from (n * 16 + hex_value c) s

unfoldable pub print_quad : ℕ → ℕ → ℕ → ℕ → Text
print_quad a b c d = print_ℕ a ++ b'.' ∷ (print_ℕ b ++ b'.' ∷ (print_ℕ c ++ b'.' ∷ print_ℕ d))

-- The address that two groups of hexadecimal digits hold.
hex_quad : List Text → Option Text
unfolding is_hex hex_from print_quad
hex_quad (x ∷ y ∷ []) =
    let hi = hex_from 0 x in
    let lo = hex_from 0 y in
    if is_hex x && is_hex y
    then some (print_quad ((hi / 256) % 256) (hi % 256) ((lo / 256) % 256) (lo % 256))
    else none
hex_quad _ = none

mapped_rest : Option Text → Option Text
unfolding hex_quad is_some dotted
mapped_rest none = none
mapped_rest (some rest) = if is_some (dotted rest) then some rest else hex_quad (split b':' rest)

mapped_ipv4 : Text → Option Text
unfolding mapped_rest after_prefix
mapped_ipv4 h = mapped_rest (after_prefix (codes "::ffff:") h)

-- `.replace(/^\[|\]$/g, "")`.
drop_open : Text → Text
drop_open [] = []
drop_open (c ∷ s) = if c == b'[' then s else c ∷ s

drop_close : Text → Text
drop_close [] = []
drop_close (c ∷ []) = if c == b']' then [] else c ∷ []
drop_close (c ∷ d ∷ s) = c ∷ drop_close (d ∷ s)

-- `/^fe[89ab]/`.
is_link_local : Text → Bool
is_link_local (f ∷ e ∷ c ∷ s) =
    f == b'f' && e == b'e' && (c == b'8' || c == b'9' || c == b'a' || c == b'b')
is_link_local _ = false

-- An IPv6 literal, whose mapped address is given.
is_blocked_ipv6 : Option Text → Text → Bool
unfolding is_private_ipv4 starts_with is_link_local
is_blocked_ipv6 (some mapped) h = is_private_ipv4 mapped
is_blocked_ipv6 none h =
    starts_with (codes "fc") h
    || starts_with (codes "fd") h
    || is_link_local h
    || starts_with (codes "ff") h

is_blocked_literal : Text → Bool
unfolding is_some dotted is_private_ipv4 mapped_ipv4 is_blocked_ipv6
is_blocked_literal h =
    if is_some (dotted h)
    then is_private_ipv4 h
    else text_eq h (codes "::1") || text_eq h (codes "::") || is_blocked_ipv6 (mapped_ipv4 h) h

is_blocked_name : Text → Bool
unfolding includes dotted is_some ends_with is_blocked_literal
is_blocked_name h =
    if not (includes b':' h) && not (is_some (dotted h))
    then text_eq h (codes "localhost") || ends_with (codes ".localhost") h
    else is_blocked_literal h

unfoldable pub is_blocked_host : (Text → Text) → Text → Bool
unfolding is_blocked_name drop_open drop_close
is_blocked_host to_lower hostname = is_blocked_name (drop_close (drop_open (to_lower hostname)))
