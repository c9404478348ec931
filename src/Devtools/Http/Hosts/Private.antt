-- ===== src/Devtools/Http/Hosts/Private.antt =====
-- packages/opencode-devtools/src/groups/http.ts: the spellings of an IPv4 address that the guard sees.
use lightbridge_opencode_too.Common.{
  ℕ, suc, ◌+◌, ◌*◌, ◌/◌, ◌%◌, ◌<◌, ◌≤◌, ◌≡◌, ◌≢◌, refl, ◌∙◌, ap, Bool, true, false, not, ◌&&◌, ◌||◌,
  none, some, List, [], ◌∷◌, ◌++◌, arith, All, All-append, length, leb, ◌==◌,
}
use lightbridge_opencode_too.Common.Text.{
  push_front, Text, codes, text_eq, is_digit, all_digits, digits_from,
}
use lightbridge_opencode_too.Common.Decimal.{
  print_ℕ, print_from, IsDigit, digits_from-print, print_from-digits, print_from-ne-nil,
  print_from_three_digits,
}
use lightbridge_opencode_too.Devtools.Http.Hosts.{
  split, includes, is_empty, is_octet, quad, dotted, is_private_range, private_of, is_private_ipv4,
  is_some, after_prefix, is_hex_digit, all_hex, is_hex, hex_from, print_quad, hex_quad, mapped_rest,
  mapped_ipv4, drop_open, drop_close, is_blocked_ipv6, is_blocked_literal, is_blocked_name,
  is_blocked_host,
}

split-word : (sep : ℕ) (s : Text) → includes sep s ≡ false → split sep s ≡ s ∷ []
unfolding split includes push_front
split-word sep [] h = refl
split-word sep (c ∷ s) h = ground (arith, split-word sep s)

split-append :
    (sep : ℕ) (s t : Text) → includes sep s ≡ false → split sep (s ++ sep ∷ t) ≡ s ∷ split sep t
unfolding split includes push_front
split-append sep [] t h = ground arith
split-append sep (c ∷ s) t h = ground (arith, split-append sep s t)

-- Whether a part of a list holds a character.
any_includes : ℕ → List Text → Bool
any_includes c [] = false
any_includes c (p ∷ ps) = includes c p || any_includes c ps

any_includes-push_front :
    (c d : ℕ) (ps : List Text) → any_includes c (push_front d ps) ≡ ((d == c) || any_includes c ps)
unfolding any_includes push_front includes
any_includes-push_front c d [] = ground arith
any_includes-push_front c d (p ∷ ps) = ground arith

any_includes-split :
    (c sep : ℕ) (s : Text) → (sep == c) ≡ false → any_includes c (split sep s) ≡ includes c s
unfolding any_includes split includes
any_includes-split c sep [] h = refl
any_includes-split c sep (d ∷ s) h =
    ground (arith, any_includes-push_front c d (split sep s), any_includes-split c sep s h)

digits-exclude :
    (c : ℕ) (s : Text) → is_digit c ≡ false → all_digits s ≡ true → includes c s ≡ false
unfolding all_digits includes
digits-exclude c [] h k = refl
digits-exclude c (d ∷ s) h k = ground (arith, digits-exclude c s h)

octet-excludes : (c : ℕ) (s : Text) → is_digit c ≡ false → is_octet s ≡ true → includes c s ≡ false
unfolding is_octet
octet-excludes c s h k = ground (arith, digits-exclude c s h)

quad-excludes :
    (c : ℕ) (ps : List Text) → is_digit c ≡ false → any_includes c ps ≡ true → quad ps ≡ none
unfolding quad any_includes
quad-excludes c (w ∷ x ∷ y ∷ z ∷ []) h k =
    ground (
      arith,
      octet-excludes c w h,
      octet-excludes c x h,
      octet-excludes c y h,
      octet-excludes c z h,
    )
quad-excludes c [] h k = refl
quad-excludes c (w ∷ []) h k = refl
quad-excludes c (w ∷ x ∷ []) h k = refl
quad-excludes c (w ∷ x ∷ y ∷ []) h k = refl
quad-excludes c (w ∷ x ∷ y ∷ z ∷ v ∷ ps) h k = refl

-- A text with a colon is no dotted quad.
dotted-colon : (s : Text) → includes b':' s ≡ true → dotted s ≡ none
unfolding dotted is_digit
dotted-colon s h = quad-excludes b':' (split b'.' s) refl (any_includes-split b':' b'.' s refl ∙ h)

includes-append : (c : ℕ) (s t : Text) → includes c (s ++ t) ≡ (includes c s || includes c t)
unfolding includes
includes-append c [] t = refl
includes-append c (d ∷ s) t = ground (arith, includes-append c s t)

includes-digits : (c : ℕ) (s : Text) → is_digit c ≡ false → All IsDigit s → includes c s ≡ false
unfolding includes is_digit
includes-digits c [] h k = refl
includes-digits c (d ∷ s) h (k, ks) = ground (arith, includes-digits c s h ks)

digits_of_All : (s : Text) → All IsDigit s → all_digits s ≡ true
unfolding all_digits
digits_of_All [] h = refl
digits_of_All (c ∷ s) (h, hs) = rw h (digits_of_All s hs)

print_ℕ-digits : (n : ℕ) → All IsDigit (print_ℕ n)
unfolding print_ℕ
print_ℕ-digits n = print_from-digits (suc n) n (omega arith)

includes-print_ℕ : (c n : ℕ) → is_digit c ≡ false → includes c (print_ℕ n) ≡ false
includes-print_ℕ c n h = includes-digits c (print_ℕ n) h (print_ℕ-digits n)

is_octet-digits : (s : Text) → s ≢ [] → length s ≤ 3 → All IsDigit s → is_octet s ≡ true
unfolding is_octet is_empty
is_octet-digits [] h k ds = absurd (h refl)
is_octet-digits (c ∷ s) h k ds = rw (digits_of_All (c ∷ s) ds) (ground arith)

is_octet-print_ℕ : (n : ℕ) → n < 256 → is_octet (print_ℕ n) ≡ true
unfolding print_ℕ
is_octet-print_ℕ n h =
    is_octet-digits (print_from (suc n) n) (print_from-ne-nil n n)
      (print_from_three_digits (suc n) n (omega arith)) (print_from-digits (suc n) n (omega arith))

digits_from-print_ℕ : (n : ℕ) → digits_from 0 (print_ℕ n) ≡ n
unfolding print_ℕ
digits_from-print_ℕ n = digits_from-print (suc n) n (omega arith)

dotted-print_quad :
    (a b c d : ℕ)
    → a < 256
    → b < 256
    → c < 256
    → d < 256
    → dotted (print_quad a b c d) ≡ some (print_ℕ a, print_ℕ b)
unfolding dotted print_quad quad is_digit
dotted-print_quad a b c d ha hb hc hd =
    rw
      (
        split-append b'.' (print_ℕ a) (print_ℕ b ++ b'.' ∷ (print_ℕ c ++ b'.' ∷ print_ℕ d))
            (includes-print_ℕ b'.' a refl),
        split-append b'.' (print_ℕ b) (print_ℕ c ++ b'.' ∷ print_ℕ d)
            (includes-print_ℕ b'.' b refl),
        split-append b'.' (print_ℕ c) (print_ℕ d) (includes-print_ℕ b'.' c refl),
        split-word b'.' (print_ℕ d) (includes-print_ℕ b'.' d refl),
        is_octet-print_ℕ a ha,
        is_octet-print_ℕ b hb,
        is_octet-print_ℕ c hc,
        is_octet-print_ℕ d hd,
      )
      refl

is_private_ipv4-print_quad :
    (a b c d : ℕ)
    → a < 256
    → b < 256
    → c < 256
    → d < 256
    → is_private_ipv4 (print_quad a b c d) ≡ is_private_range a b
unfolding is_private_ipv4 private_of
is_private_ipv4-print_quad a b c d ha hb hc hd =
    rw (dotted-print_quad a b c d ha hb hc hd, digits_from-print_ℕ a, digits_from-print_ℕ b) refl

includes-print_quad :
    (k a b c d : ℕ)
    → is_digit k ≡ false
    → (b'.' == k) ≡ false
    → includes k (print_quad a b c d) ≡ false
unfolding print_quad includes
includes-print_quad k a b c d h e =
    rw
      (
        includes-append k (print_ℕ a)
            (b'.' ∷ (print_ℕ b ++ b'.' ∷ (print_ℕ c ++ b'.' ∷ print_ℕ d))),
        includes-append k (print_ℕ b) (b'.' ∷ (print_ℕ c ++ b'.' ∷ print_ℕ d)),
        includes-append k (print_ℕ c) (b'.' ∷ print_ℕ d),
        includes-print_ℕ k a h,
        includes-print_ℕ k b h,
        includes-print_ℕ k c h,
        includes-print_ℕ k d h,
        e,
      )
      refl

drop_open-none : (s : Text) → includes b'[' s ≡ false → drop_open s ≡ s
unfolding drop_open includes
drop_open-none [] h = refl
drop_open-none (c ∷ s) h = ground arith

drop_close-none : (s : Text) → includes b']' s ≡ false → drop_close s ≡ s
unfolding drop_close includes
drop_close-none [] h = refl
drop_close-none (c ∷ []) h = ground arith
drop_close-none (c ∷ d ∷ s) h = ap (λ t. c ∷ t) (drop_close-none (d ∷ s) (ground arith))

drop_close-append : (s : Text) → drop_close (s ++ codes "]") ≡ s
unfolding drop_close
drop_close-append [] = refl
drop_close-append (c ∷ []) = refl
drop_close-append (c ∷ d ∷ s) = ap (λ t. c ∷ t) (drop_close-append (d ∷ s))

-- An ASCII character that is no capital letter.
abbrev pub IsLowered : ℕ → Type 0
IsLowered c = (leb c 127 && not (leb b'A' c && leb c b'Z')) ≡ true

digit-IsLowered : (c : ℕ) → IsDigit c → IsLowered c
unfolding is_digit
digit-IsLowered c h = ground arith

digits-IsLowered : (s : Text) → All IsDigit s → All IsLowered s
digits-IsLowered [] h = tt
digits-IsLowered (c ∷ s) (h, hs) = (digit-IsLowered c h, digits-IsLowered s hs)

print_quad-IsLowered : (a b c d : ℕ) → All IsLowered (print_quad a b c d)
unfolding print_quad
print_quad-IsLowered a b c d =
    dot a _ (dot b _ (dot c _ (digits-IsLowered (print_ℕ d) (print_ℕ-digits d))))
  where
    dot : (n : ℕ) (s : Text) → All IsLowered s → All IsLowered (print_ℕ n ++ b'.' ∷ s)
    dot n s h =
        All-append IsLowered (print_ℕ n) (b'.' ∷ s)
          (digits-IsLowered (print_ℕ n) (print_ℕ-digits n)) (refl, h)

hex-IsLowered : (s : Text) → all_hex s ≡ true → All IsLowered s
unfolding all_hex is_hex_digit is_digit
hex-IsLowered [] h = tt
hex-IsLowered (c ∷ s) h = (ground arith, hex-IsLowered s (ground arith))

hex-excludes : (s : Text) → all_hex s ≡ true → includes b':' s ≡ false
unfolding all_hex is_hex_digit is_digit includes
hex-excludes [] h = refl
hex-excludes (c ∷ s) h = ground (arith, hex-excludes s)

is_hex-all : (s : Text) → is_hex s ≡ true → all_hex s ≡ true
unfolding is_hex
is_hex-all s h = ground arith

-- An IPv6 literal whose first six groups say that it holds an IPv4 address.
abbrev pub bracketed : Text → Text
bracketed rest = codes "[::ffff:" ++ (rest ++ codes "]")

is_blocked_name-mapped :
    (rest : Text)
    → is_blocked_name (codes "::ffff:" ++ rest)
      ≡ is_blocked_ipv6 (mapped_rest (some rest)) (codes "::ffff:" ++ rest)
unfolding is_blocked_name is_blocked_literal mapped_ipv4 after_prefix includes text_eq is_some
    dotted
is_blocked_name-mapped rest =
    let colon : quad (split b'.' (codes "::ffff:" ++ rest)) ≡ none =
      dotted-colon (codes "::ffff:" ++ rest) refl in
    rw colon refl

high_byte : (a b : ℕ) → a < 256 → b < 256 → ((a * 256 + b) / 256) % 256 ≡ a
high_byte a b ha hb = omega arith

low_byte : (a b : ℕ) → b < 256 → (a * 256 + b) % 256 ≡ b
low_byte a b hb = omega arith

or_true : (b : Bool) → (b || true) ≡ true
or_true true = refl
or_true false = refl

module _ (to_lower : Text → Text) (lowered : (s : Text) → All IsLowered s → to_lower s ≡ s) where
  is_blocked_host-bracketed :
      (rest : Text)
      → All IsLowered rest
      → is_blocked_host to_lower (bracketed rest)
        ≡ is_blocked_ipv6 (mapped_rest (some rest)) (codes "::ffff:" ++ rest)
  unfolding is_blocked_host drop_open
  is_blocked_host-bracketed rest h =
      let brackets : All IsLowered (bracketed rest) =
        All-append IsLowered (codes "[::ffff:") (rest ++ codes "]")
          (refl, (refl, (refl, (refl, (refl, (refl, (refl, (refl, tt))))))))
          (All-append IsLowered rest (codes "]") h (refl, tt)) in
      rw (lowered (bracketed rest) brackets) (
        ap is_blocked_name (drop_close-append (codes "::ffff:" ++ rest))
        ∙ is_blocked_name-mapped rest)

  is_blocked_host-quad :
      (a b c d : ℕ)
      → a < 256
      → b < 256
      → c < 256
      → d < 256
      → is_blocked_host to_lower (print_quad a b c d) ≡ is_private_range a b
  unfolding is_blocked_host is_blocked_name is_blocked_literal is_some is_digit dotted
  is_blocked_host-quad a b c d ha hb hc hd =
      let q = print_quad a b c d in
      let is_quad : quad (split b'.' (print_quad a b c d)) ≡ some (print_ℕ a, print_ℕ b) =
        dotted-print_quad a b c d ha hb hc hd in
      rw
        (
          lowered q (print_quad-IsLowered a b c d),
          drop_open-none q (includes-print_quad b'[' a b c d refl refl),
          drop_close-none q (includes-print_quad b']' a b c d refl refl),
          includes-print_quad b':' a b c d refl refl,
          is_quad,
        )
        (rw (digits_from-print_ℕ a, digits_from-print_ℕ b) refl)

  mapped_rest-quad :
      (a b c d : ℕ)
      → a < 256
      → b < 256
      → c < 256
      → d < 256
      → mapped_rest (some (print_quad a b c d)) ≡ some (print_quad a b c d)
  unfolding mapped_rest is_some
  mapped_rest-quad a b c d ha hb hc hd = rw (dotted-print_quad a b c d ha hb hc hd) refl

  mapped_rest-hex :
      (a b c d : ℕ) (x y : Text)
      → a < 256
      → b < 256
      → c < 256
      → d < 256
      → is_hex x ≡ true
      → is_hex y ≡ true
      → hex_from 0 x ≡ a * 256 + b
      → hex_from 0 y ≡ c * 256 + d
      → mapped_rest (some (x ++ b':' ∷ y)) ≡ some (print_quad a b c d)
  unfolding mapped_rest is_some hex_quad includes print_quad
  mapped_rest-hex a b c d x y ha hb hc hd hx hy ex ey =
      let colon : includes b':' (x ++ b':' ∷ y) ≡ true =
        includes-append b':' x (b':' ∷ y) ∙ or_true (includes b':' x) in
      rw
        (
          dotted-colon (x ++ b':' ∷ y) colon,
          split-append b':' x y (hex-excludes x (is_hex-all x hx)),
          split-word b':' y (hex-excludes y (is_hex-all y hy)),
          hx,
          hy,
          ex,
          ey,
        )
        (rw (high_byte a b ha hb, low_byte a b hb, high_byte c d hc hd, low_byte c d hd) refl)

  -- An IPv4 address is refused in each of its spellings or in none: as a dotted quad, as an IPv6
  -- literal that holds the dotted quad, and as one that holds it in two groups of up to four lower-case
  -- hexadecimal digits. It is refused exactly where its first two bytes are those of a private,
  -- loopback, link-local or shared range. `toLowerCase` must keep ASCII that has no capital letter.
  pub is_blocked_host-spellings :
      (a b c d : ℕ) (x y : Text)
      → a < 256
      → b < 256
      → c < 256
      → d < 256
      → is_hex x ≡ true
      → is_hex y ≡ true
      → hex_from 0 x ≡ a * 256 + b
      → hex_from 0 y ≡ c * 256 + d
      → (is_blocked_host to_lower (print_quad a b c d) ≡ is_private_range a b)
        × (is_blocked_host to_lower (bracketed (print_quad a b c d)) ≡ is_private_range a b)
        × (is_blocked_host to_lower (bracketed (x ++ b':' ∷ y)) ≡ is_private_range a b)
  unfolding is_blocked_ipv6
  is_blocked_host-spellings a b c d x y ha hb hc hd hx hy ex ey =
      let q = print_quad a b c d in
      let x_lowered = hex-IsLowered x (is_hex-all x hx) in
      let y_lowered = hex-IsLowered y (is_hex-all y hy) in
      let private = is_private_ipv4-print_quad a b c d ha hb hc hd in
      (
        is_blocked_host-quad a b c d ha hb hc hd,
        is_blocked_host-bracketed q (print_quad-IsLowered a b c d)
            ∙ ap (λ o. is_blocked_ipv6 o (codes "::ffff:" ++ q))
                (mapped_rest-quad a b c d ha hb hc hd)
            ∙ private,
        is_blocked_host-bracketed (x ++ b':' ∷ y)
              (All-append IsLowered x (b':' ∷ y) x_lowered (refl, y_lowered))
            ∙ ap (λ o. is_blocked_ipv6 o (codes "::ffff:" ++ (x ++ b':' ∷ y)))
                (mapped_rest-hex a b c d x y ha hb hc hd hx hy ex ey)
            ∙ private,
      )
