-- ===== src/Ratelimit/Headers/Integers.antt =====
-- Integers in decimal, with white space around them, as `parseInteger` reads them.
use lightbridge_opencode_too.Common.{
  ℕ, suc, ◌≡◌, ◌≤◌, ◌^◌, ◌≢◌, refl, true, false, some, [], ◌∷◌, ◌++◌, arith, All, ◌==◌,
}
use lightbridge_opencode_too.Common.Decimal.{
  print_ℕ, IsDigit, digits_from-print, print_from-digits, print_from-ne-nil,
}
use lightbridge_opencode_too.Common.Int.{ℤ, pos, negsuc}
use lightbridge_opencode_too.Common.Text.{Text, is_space, is_digit, all_digits, digits_from}
use lightbridge_opencode_too.Common.Trim.{IsSpace, IsMark, IsWord, trim-word}
use lightbridge_opencode_too.Ratelimit.Headers.{
  double_of, round, is_finite, is_digits, integer_of, parse_integer,
}

unfoldable pub print : ℤ → Text
unfolding print_ℕ
print (pos n) = print_ℕ n
print (negsuc n) = b'-' ∷ print_ℕ (suc n)

abbrev pub magnitude : ℤ → ℕ
magnitude (pos n) = n
magnitude (negsuc n) = suc n

pub double_of_small : (n : ℕ) → n ≤ 2 ^ 53 → double_of n ≡ n
unfolding double_of
double_of_small n h = ground (arith, h)

is_finite_small : (n : ℕ) → n ≤ 2 ^ 53 → is_finite n ≡ true
unfolding is_finite
is_finite_small n h = ground (arith, h)

pub round_small : (z : ℤ) → magnitude z ≤ 2 ^ 53 → round z ≡ z
unfolding round
round_small (pos n) h = rw (double_of_small n h) refl
round_small (negsuc n) h = rw (double_of_small (suc n) h) (ground arith)

pub is_digits_of_All : (s : Text) → s ≢ [] → All IsDigit s → is_digits s ≡ true
unfolding is_digits all_digits
is_digits_of_All [] h k = absurd (h refl)
is_digits_of_All (c ∷ s) h k = rw (k.0) (rest s k.1)
  where
    rest : (t : Text) → All IsDigit t → all_digits t ≡ true
    rest [] k = refl
    rest (d ∷ t) k = rw (k.0) (rest t k.1)

digit-IsMark : (c : ℕ) → IsDigit c → IsMark c
unfolding is_digit is_space
digit-IsMark c h = ground arith

digits-IsMark : (s : Text) → All IsDigit s → All IsMark s
digits-IsMark [] h = tt
digits-IsMark (c ∷ s) h = (digit-IsMark c h.0, digits-IsMark s h.1)

pub print_ℕ-IsWord : (n : ℕ) → IsWord (print_ℕ n)
unfolding print_ℕ
print_ℕ-IsWord n =
    (print_from-ne-nil n n, digits-IsMark _ (print_from-digits (suc n) n (omega arith)))

print-IsWord : (z : ℤ) → IsWord (print z)
unfolding print is_space
print-IsWord (pos n) = print_ℕ-IsWord n
print-IsWord (negsuc n) =
    (cc, (refl, digits-IsMark _ (print_from-digits (suc (suc n)) (suc n) (omega arith))))

digit-ne-minus : (c : ℕ) → IsDigit c → (c == b'-') ≡ false
unfolding is_digit
digit-ne-minus c h = ground arith

integer_of-digits :
    (s : Text) (n : ℕ)
    → s ≢ []
    → All IsDigit s
    → digits_from 0 s ≡ n
    → n ≤ 2 ^ 53
    → integer_of s ≡ some (pos n)
unfolding integer_of
integer_of-digits [] n h k e f = absurd (h refl)
integer_of-digits (c ∷ s) n h k e f = rw (
  digit-ne-minus c (k.0),
  is_digits_of_All (c ∷ s) h k,
  e,
  is_finite_small n f,
  double_of_small n f,
)

integer_of-minus :
    (s : Text) (n : ℕ)
    → s ≢ []
    → All IsDigit s
    → digits_from 0 s ≡ suc n
    → suc n ≤ 2 ^ 53
    → integer_of (b'-' ∷ s) ≡ some (negsuc n)
unfolding integer_of
integer_of-minus s n h k e f =
    rw (is_digits_of_All s h k, e, is_finite_small (suc n) f, double_of_small (suc n) f)
      (ground arith)

integer_of-print : (z : ℤ) → magnitude z ≤ 2 ^ 53 → integer_of (print z) ≡ some z
unfolding print
integer_of-print (pos n) f =
    integer_of-digits _ n (print_from-ne-nil n n) (print_from-digits (suc n) n (omega arith))
      (digits_from-print (suc n) n (omega arith)) f
integer_of-print (negsuc n) f =
    integer_of-minus _ n (print_from-ne-nil (suc n) (suc n))
      (print_from-digits (suc (suc n)) (suc n) (omega arith))
      (digits_from-print (suc (suc n)) (suc n) (omega arith)) f

-- `parseInteger` reads back every integer from -2^53 to 2^53, printed in decimal with any white space
-- around it.
pub parse_integer-print :
    (z : ℤ) (l r : Text)
    → All IsSpace l
    → All IsSpace r
    → magnitude z ≤ 2 ^ 53
    → parse_integer (some (l ++ (print z ++ r))) ≡ some z
unfolding parse_integer
parse_integer-print z l r h k f =
    rw (trim-word l (print z) r h k (print-IsWord z)) (integer_of-print z f)
