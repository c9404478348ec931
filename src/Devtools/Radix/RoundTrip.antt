-- ===== src/Devtools/Radix/RoundTrip.antt =====
-- packages/opencode-devtools/src/groups/math.ts: a printed integer is read back.
use mathlib.Core.List.{append-nil}
use native.Mathlib.Nat.{div-add-mod, mod-lt, div-lt_self, mul_comm, le-div_iff_mul-le}
use lightbridge_opencode_too.Common.{
  ℕ, zero, suc, ◌+◌, ◌*◌, ◌/◌, ◌%◌, ◌^◌, ◌≤◌, ◌<◌, ◌≡◌, ◌≢◌, refl, sym, ap, ◌∙◌, true, false, some,
  [], ◌∷◌, ◌++◌, arith, ltb, ◌==◌, Bool-cases, inl, inr, All, All-append,
}
use lightbridge_opencode_too.Common.Text.{Text, is_space}
use lightbridge_opencode_too.Common.Trim.{IsMark, IsSpace, trim-word}
use lightbridge_opencode_too.Common.Js.{finite}
use lightbridge_opencode_too.Common.Int.{pos}
use lightbridge_opencode_too.Devtools.Radix.{
  exact, digit_value, lower, is_legal, all_legal, strip_prefix, read_digits, of_value, parse_int,
  parse_trimmed, parse_in_radix, digit_char, print_digits, base_of, Conversion, to_string,
  math_base,
}

-- A code unit that is a digit in either case, and no white space.
abbrev IsPrinted : ℕ → ℕ → Type 0
IsPrinted radix c =
    (is_legal radix c ≡ true) × (ltb (digit_value c) radix ≡ true) × (is_space c ≡ false)

digit_value-char : (d : ℕ) → d < 36 → digit_value (digit_char d) ≡ d
unfolding digit_value digit_char
digit_value-char d h = ground (arith, h)

lower-digit_char : (d : ℕ) → d < 36 → lower (digit_char d) ≡ digit_char d
unfolding lower digit_char
lower-digit_char d h = ground (arith, h)

digit_char-IsMark : (d : ℕ) → d < 36 → is_space (digit_char d) ≡ false
unfolding is_space digit_char
digit_char-IsMark d h = ground (arith, h)

ltb_lem : (a b : ℕ) → a < b → ltb a b ≡ true
ltb_lem a b h = ground (arith, h)

digit_char-IsPrinted : (radix d : ℕ) → d < radix → radix ≤ 36 → IsPrinted radix (digit_char d)
unfolding is_legal
digit_char-IsPrinted radix d h k =
    let small : d < 36 = omega (arith, h, k) in
    let reads : ltb (digit_value (digit_char d)) radix ≡ true =
      rw (digit_value-char d small) (ltb_lem d radix h) in
    (rw (lower-digit_char d small) reads, reads, digit_char-IsMark d small)

-- A text that does not start with 0.
abbrev IsLeading : Text → Type 0
IsLeading [] = ⊥
IsLeading (c ∷ s) = c ≢ 48

IsLeading-append : (s t : Text) → IsLeading s → IsLeading (s ++ t)
IsLeading-append [] t h = elim h [ ]
IsLeading-append (c ∷ s) t h = h

digit_char-ne-zero : (d : ℕ) → 1 ≤ d → digit_char d ≢ 48
unfolding digit_char
digit_char-ne-zero d h e = ground (arith, h, e)

read_digits-append :
    (radix n : ℕ) (s t : Text)
    → All (IsPrinted radix) s
    → read_digits radix n (s ++ t) ≡ read_digits radix (read_digits radix n s) t
unfolding read_digits
read_digits-append radix n [] t h = refl
read_digits-append radix n (c ∷ s) t h =
    rw (h.0.1) (read_digits-append radix (n * radix + digit_value c) s t h.1)

cons_of : (s : Text) (d : ℕ) → (c : ℕ) × (t : Text) × (s ++ d ∷ [] ≡ c ∷ t)
cons_of [] d = (d, [], refl)
cons_of (c ∷ s) d = (c, s ++ d ∷ [], refl)

nil-ne-cons : {c : ℕ} {s : Text} → c ∷ s ≢ []
nil-ne-cons e = cc e

strip_prefix_one : (c : ℕ) → strip_prefix (c ∷ []) ≡ c ∷ []
unfolding strip_prefix
strip_prefix_one c = refl

strip_prefix_leading : (s : Text) → IsLeading s → strip_prefix s ≡ s
unfolding strip_prefix
strip_prefix_leading [] h = elim h [ ]
strip_prefix_leading (c ∷ []) h = refl
strip_prefix_leading (c ∷ d ∷ s) h = elim (Bool-cases (c == 48)) [
  | inl e ↦ absurd (h (ground (arith, e)))
  | inr e ↦ rw e refl
]

all_legal-printed : (radix : ℕ) (s : Text) → All (IsPrinted radix) s → all_legal radix s ≡ true
unfolding all_legal
all_legal-printed radix [] h = refl
all_legal-printed radix (c ∷ s) h = rw (h.0.0) (all_legal-printed radix s h.1)

All-IsMark : (radix : ℕ) (s : Text) → All (IsPrinted radix) s → All IsMark s
All-IsMark radix [] h = tt
All-IsMark radix (c ∷ s) h = (h.0.2, All-IsMark radix s h.1)

of_value_small : (n : ℕ) → n ≤ 2 ^ 53 → of_value n ≡ exact n
unfolding of_value
of_value_small n h = ground (arith, h)

parse_trimmed-printed :
    (radix : ℕ) (s : Text) (n c : ℕ) (t : Text)
    → s ≡ c ∷ t
    → All (IsPrinted radix) s
    → read_digits radix 0 s ≡ n
    → n ≤ 2 ^ 53
    → parse_trimmed radix s ≡ some (exact n)
unfolding parse_trimmed parse_int
parse_trimmed-printed radix [] n c t e h k small = cc e
parse_trimmed-printed radix (d ∷ s) n c t e h k small =
    rw (all_legal-printed radix (d ∷ s) h, h.0.1)
      (ap some (ap of_value (rw (h.0.1) at k) ∙ of_value_small n small))

module _ (radix : ℕ) (low : 2 ≤ radix) (high : radix ≤ 36) where
  shorter : (f n : ℕ) → n < suc f → radix ≤ n → n / radix < f
  shorter f n h k =
      let less : n / radix < n = div-lt_self (omega (arith, low, k)) (omega (arith, low)) in
      omega (arith, h, less)

  in_range : (n : ℕ) → n % radix < radix
  in_range n = mod-lt n (omega (arith, low))

  print_digits-IsPrinted : (f n : ℕ) → n < f → All (IsPrinted radix) (print_digits radix f n)
  unfolding print_digits
  print_digits-IsPrinted zero n h = elim h [ ]
  print_digits-IsPrinted (suc f) n h = elim (Bool-cases (ltb n radix)) [
    | inl e ↦ rw e (digit_char-IsPrinted radix n (ground (arith, e)) high, tt)
    | inr e ↦ rw e (
        All-append (IsPrinted radix) (print_digits radix f (n / radix))
          (digit_char (n % radix) ∷ [])
          (print_digits-IsPrinted f (n / radix) (shorter f n h (ground (arith, e))))
          (digit_char-IsPrinted radix (n % radix) (in_range n) high, tt))
  ]

  read_one : (n d : ℕ) → d < radix → read_digits radix n (digit_char d ∷ []) ≡ n * radix + d
  unfolding read_digits
  read_one n d h =
      let small : d < 36 = omega (arith, h, high) in
      rw (digit_value-char d small, ltb_lem d radix h) refl

  pub read-print_digits : (f n : ℕ) → n < f → read_digits radix 0 (print_digits radix f n) ≡ n
  unfolding print_digits
  read-print_digits zero n h = elim h [ ]
  read-print_digits (suc f) n h = elim (Bool-cases (ltb n radix)) [
    | inl e ↦ rw e (read_one 0 n (ground (arith, e)) ∙ omega arith)
    | inr e ↦
        let less : n / radix < f = shorter f n h (ground (arith, e)) in
        rw
          (
            e,
            read_digits-append radix 0 (print_digits radix f (n / radix))
                (digit_char (n % radix) ∷ []) (print_digits-IsPrinted f (n / radix) less),
            read-print_digits f (n / radix) less,
            read_one (n / radix) (n % radix) (in_range n),
            mul_comm (n / radix) radix,
          )
          (div-add-mod n radix)
  ]

  print_digits-IsLeading : (f n : ℕ) → n < f → 1 ≤ n → IsLeading (print_digits radix f n)
  unfolding print_digits
  print_digits-IsLeading zero n h k = elim h [ ]
  print_digits-IsLeading (suc f) n h k = elim (Bool-cases (ltb n radix)) [
    | inl e ↦ rw e (digit_char-ne-zero n k)
    | inr e ↦
        let large : radix ≤ n = ground (arith, e) in
        let some_left : 1 ≤ n / radix =
          (le-div_iff_mul-le (omega (arith, low))).1 (omega (arith, large)) in
        rw e (
          IsLeading-append (print_digits radix f (n / radix)) (digit_char (n % radix) ∷ [])
            (print_digits-IsLeading f (n / radix) (shorter f n h large) some_left))
  ]

  print_digits-cons : (f n : ℕ) → (c : ℕ) × (s : Text) × (print_digits radix (suc f) n ≡ c ∷ s)
  unfolding print_digits
  print_digits-cons f n = elim (Bool-cases (ltb n radix)) [
    | inl e ↦ (digit_char n, [], rw e refl)
    | inr e ↦
        let (c, s, first) = cons_of (print_digits radix f (n / radix)) (digit_char (n % radix)) in
        (c, s, rw e first)
  ]

  strip_prefix-print :
      (n : ℕ) → strip_prefix (print_digits radix (suc n) n) ≡ print_digits radix (suc n) n
  unfolding print_digits
  strip_prefix-print zero =
      rw (ltb_lem 0 radix (omega (arith, low))) (strip_prefix_one (digit_char 0))
  strip_prefix-print (suc n) =
      strip_prefix_leading (print_digits radix (suc (suc n)) (suc n))
        (print_digits-IsLeading (suc (suc n)) (suc n) (omega arith) (omega arith))

  -- An integer that is printed in a radix is read back, with any white space around it.
  pub parse_in_radix-print :
      (n : ℕ) (l r : Text)
      → n ≤ 2 ^ 53
      → All IsSpace l
      → All IsSpace r
      → parse_in_radix (l ++ (print_digits radix (suc n) n ++ r)) radix ≡ some (exact n)
  unfolding parse_in_radix
  parse_in_radix-print n l r h hl hr =
      let printed = print_digits-IsPrinted (suc n) n (omega arith) in
      let (c, s, first) = print_digits-cons n n in
      rw
        (
          trim-word l (print_digits radix (suc n) n) r hl hr (
            λ e. nil-ne-cons (sym first ∙ e),
            All-IsMark radix (print_digits radix (suc n) n) printed,
          ),
          strip_prefix-print n,
        )
        (parse_trimmed-printed radix (print_digits radix (suc n) n) n c s first printed
          (read-print_digits (suc n) n (omega arith)) h)

module _ (approximate : ℕ → ℕ → Text) (n a b : ℕ) (low_a : 2 ≤ a) (high_a : a ≤ 36) (low_b : 2 ≤ b)
    (high_b : b ≤ 36) (small : n ≤ 2 ^ 53) where
  printed_in : ℕ → Text
  printed_in radix = to_string approximate (exact n) radix

  base_of-lem : (k : ℕ) → 2 ≤ k → k ≤ 36 → base_of (finite (pos k) zero) ≡ some k
  unfolding base_of
  base_of-lem k h g = ground (arith, h, g)

  converted : ℕ → Conversion
  converted radix = record {
    decimal = exact n;
    result = printed_in radix;
    binary = printed_in 2;
    octal = printed_in 8;
    hex = printed_in 16;
  }

  math_base-printed :
      (k m : ℕ) (l r : Text)
      → 2 ≤ k
      → k ≤ 36
      → 2 ≤ m
      → m ≤ 36
      → All IsSpace l
      → All IsSpace r
      → math_base approximate (l ++ (printed_in k ++ r)) (finite (pos k) zero) (finite (pos m) zero)
        ≡ some (converted m)
  unfolding math_base converted printed_in
  math_base-printed k m l r hk hk' hm hm' hl hr =
      rw
        (
          base_of-lem k hk hk',
          base_of-lem m hm hm',
          parse_in_radix-print k hk hk' n l r small hl hr,
        )
        refl

  -- math_base converts a natural number up to 2^53, printed in any radix from 2 to 36 with any white
  -- space around it, to every such radix: its `decimal` is the number, `binary`, `octal` and `hex` are
  -- its texts in radix 2, 8 and 16, and the `result` converts back to the text that was printed.
  pub math_base-returns :
      (l r : Text)
      → All IsSpace l
      → All IsSpace r
      → (there back : Conversion) × (math_base approximate
            (l ++ (to_string approximate (exact n) a ++ r))
            (finite (pos a) zero)
            (finite (pos b) zero)
          ≡ some there)
        × (math_base approximate there.result (finite (pos b) zero) (finite (pos a) zero)
            ≡ some back)
        × (there.decimal ≡ exact n)
        × (there.binary ≡ to_string approximate (exact n) 2)
        × (there.octal ≡ to_string approximate (exact n) 8)
        × (there.hex ≡ to_string approximate (exact n) 16)
        × (back.result ≡ to_string approximate (exact n) a)
  unfolding converted printed_in
  math_base-returns l r hl hr = (
    converted b,
    converted a,
    math_base-printed a b l r low_a high_a low_b high_b hl hr,
    ap (λ t. math_base approximate t (finite (pos b) zero) (finite (pos a) zero))
          (sym (append-nil (to_string approximate (exact n) b)))
        ∙ math_base-printed b a [] [] low_b high_b low_a high_a tt tt,
    refl,
    refl,
    refl,
    refl,
    refl,
  )
