-- ===== src/Common/Decimal.antt =====
-- `String(n)` of a natural number, and how it reads back.
use Prim.Native.Nat.{ℕ, zero, suc, ◌+◌, ◌-◌, ◌*◌, ◌/◌, ◌%◌, ◌<◌, ◌≤◌}
use mathlib.Core.Path.{◌≡◌, refl, ap}
use mathlib.Core.Logic.{◌≢◌, inl, inr}
use mathlib.Core.Bool.{true}
use mathlib.Core.List.{[], ◌∷◌, ◌++◌}
use native.Mathlib.Omega.{arith}
use lightbridge_opencode_too.Common.Tests.{ltb, if◌then◌else◌, Bool-cases}
use lightbridge_opencode_too.Common.Lists.{All, All-append, length, length-append}
use lightbridge_opencode_too.Common.Text.{Text, is_digit, digits_from}

-- Decimal notation, with fuel for the digits.
unfoldable pub print_from : ℕ → ℕ → Text
print_from zero n = []
print_from (suc f) n =
    let more = print_from f (n / 10) ++ (b'0' + n % 10) ∷ [] in
    if ltb n 10 then (b'0' + n) ∷ [] else more

unfoldable pub print_ℕ : ℕ → Text
unfolding print_from
print_ℕ n = print_from (suc n) n

digits_from-append : (n : ℕ) (s t : Text) → digits_from n (s ++ t) ≡ digits_from (digits_from n s) t
unfolding digits_from
digits_from-append n [] t = refl
digits_from-append n (c ∷ s) t = digits_from-append (n * 10 + (c - b'0')) s t

pub digits_from-print : (f n : ℕ) → n < f → digits_from 0 (print_from f n) ≡ n
unfolding print_from digits_from
digits_from-print zero n h = elim h [ ]
digits_from-print (suc f) n h = elim (Bool-cases (ltb n 10)) [
  | inl e ↦ rw e (omega arith)
  | inr e ↦
      rw
        (
          e,
          digits_from-append 0 (print_from f (n / 10)) ((b'0' + n % 10) ∷ []),
          digits_from-print f (n / 10) (ground arith),
        )
        (ground arith)
]

abbrev pub IsDigit : ℕ → Type 0
IsDigit c = is_digit c ≡ true

pub print_from-digits : (f n : ℕ) → n < f → All IsDigit (print_from f n)
unfolding print_from is_digit
print_from-digits zero n h = elim h [ ]
print_from-digits (suc f) n h = elim (Bool-cases (ltb n 10)) [
  | inl e ↦ rw e (ground arith, tt)
  | inr e ↦ rw e (
      All-append IsDigit (print_from f (n / 10)) ((b'0' + n % 10) ∷ [])
        (print_from-digits f (n / 10) (ground arith)) (ground arith, tt))
]

pub print_from-ne-nil : (f n : ℕ) → print_from (suc f) n ≢ []
unfolding print_from
print_from-ne-nil f n e = elim (Bool-cases (ltb n 10)) [
  | inl small ↦ let one : (b'0' + n) ∷ [] ≡ [] = rw small at e in cc one
  | inr large ↦
      let more : print_from f (n / 10) ++ (b'0' + n % 10) ∷ [] ≡ [] = rw large at e in
      omega (arith, ap length more, length-append (print_from f (n / 10)) ((b'0' + n % 10) ∷ []))
]

-- One digit more than what is printed before the last one.
length-print_from :
    (f n b : ℕ)
    → (10 ≤ n → length (print_from f (n / 10)) ≤ b)
    → length (print_from (suc f) n) ≤ suc b
unfolding print_from
length-print_from f n b h = elim (Bool-cases (ltb n 10)) [
  | inl e ↦ rw e (omega arith)
  | inr e ↦
      rw (e, length-append (print_from f (n / 10)) ((b'0' + n % 10) ∷ []))
        (omega (arith, h (ground arith)))
]

print_from_one_digit : (f n : ℕ) → n < 10 → length (print_from f n) ≤ 1
unfolding print_from
print_from_one_digit zero n h = omega arith
print_from_one_digit (suc f) n h = length-print_from f n 0 (λ k. omega arith)

print_from_two_digits : (f n : ℕ) → n < 100 → length (print_from f n) ≤ 2
unfolding print_from
print_from_two_digits zero n h = omega arith
print_from_two_digits (suc f) n h =
    length-print_from f n 1 (λ k. print_from_one_digit f (n / 10) (omega arith))

pub print_from_three_digits : (f n : ℕ) → n < 1000 → length (print_from f n) ≤ 3
unfolding print_from
print_from_three_digits zero n h = omega arith
print_from_three_digits (suc f) n h =
    length-print_from f n 2 (λ k. print_from_two_digits f (n / 10) (omega arith))
