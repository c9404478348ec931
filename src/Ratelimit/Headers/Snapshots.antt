-- ===== src/Ratelimit/Headers/Snapshots.antt =====
-- What `parseRateLimit` reads from the headers of a limiter that prints its numbers in decimal.
use mathlib.Core.List.{append-nil}
use lightbridge_opencode_too.Common.{
  ℕ, suc, ◌+◌, ◌*◌, ◌^◌, ◌≤◌, ◌≡◌, ◌≢◌, ◌⊎◌, ◌∙◌, refl, ap, sym, inl, inr, false, Option, some, [],
  ◌∷◌, ◌++◌, arith, All, ◌==◌,
}
use lightbridge_opencode_too.Common.Decimal.{
  print_ℕ, IsDigit, digits_from-print, print_from-digits, print_from-ne-nil,
}
use lightbridge_opencode_too.Common.Int.{ℤ, pos, negsuc, ◌+ℤ◌, times}
use lightbridge_opencode_too.Common.Text.{Text, codes, is_digit, digits_from, before, trim}
use lightbridge_opencode_too.Common.Trim.{trim-word}
use lightbridge_opencode_too.Ratelimit.Headers.{
  round, parse_integer, parse_limit, parse_rate_limit, parse_retry_after, retry_after_of, reset_at,
}
use lightbridge_opencode_too.Ratelimit.Headers.Integers.{
  print, magnitude, parse_integer-print, round_small, double_of_small, is_digits_of_All,
  print_ℕ-IsWord,
}

-- The end of a header, or a further part after a comma or a semicolon.
abbrev pub IsPolicyPart : Text → Type 0
IsPolicyPart [] = Unit
IsPolicyPart (c ∷ s) = (c ≡ b',') ⊎ (c ≡ b';')

abbrev IsNot : ℕ → ℕ → Type 0
IsNot sep c = (c == sep) ≡ false

before-append : (sep : ℕ) (s t : Text) → All (IsNot sep) s → before sep (s ++ t) ≡ s ++ before sep t
unfolding before
before-append sep [] t h = refl
before-append sep (c ∷ s) t h = rw (h.0) (ap (λ r. c ∷ r) (before-append sep s t h.1))

before-policy : (t : Text) → IsPolicyPart t → before b';' (before b',' t) ≡ []
unfolding before
before-policy [] h = refl
before-policy (c ∷ t) (inl e) = rw e refl
before-policy (c ∷ t) (inr e) = rw e refl

digits-IsNot :
    (sep : ℕ) (s : Text) → (sep ≡ b',') ⊎ (sep ≡ b';') → All IsDigit s → All (IsNot sep) s
unfolding is_digit
digits-IsNot sep [] e h = tt
digits-IsNot sep (c ∷ s) e h = (ground (arith, h.0, e), digits-IsNot sep s e h.1)

print-IsNot : (sep : ℕ) (z : ℤ) → (sep ≡ b',') ⊎ (sep ≡ b';') → All (IsNot sep) (print z)
unfolding print
print-IsNot sep (pos n) e = digits-IsNot sep _ e (print_from-digits (suc n) n (omega arith))
print-IsNot sep (negsuc n) e = (
  ground (arith, e),
  digits-IsNot sep _ e (print_from-digits (suc (suc n)) (suc n) (omega arith)),
)

first_part-print :
    (z : ℤ) (t : Text) → IsPolicyPart t → before b';' (before b',' (print z ++ t)) ≡ print z
first_part-print z t h =
    ap (before b';') (before-append b',' (print z) t (print-IsNot b',' z (inl refl)))
    ∙ before-append b';' (print z) (before b',' t) (print-IsNot b';' z (inr refl))
    ∙ ap (λ r. print z ++ r) (before-policy t h)
    ∙ append-nil (print z)

parse_integer_plain : (z : ℤ) → magnitude z ≤ 2 ^ 53 → parse_integer (some (print z)) ≡ some z
parse_integer_plain z h =
    ap (λ s. parse_integer (some s)) (sym (append-nil (print z)))
    ∙ parse_integer-print z [] [] tt tt h

parse_limit-print :
    (z : ℤ) (t : Text)
    → IsPolicyPart t
    → magnitude z ≤ 2 ^ 53
    → parse_limit (some (print z ++ t)) ≡ some z
unfolding parse_limit
parse_limit-print z t h small =
    ap (λ s. parse_integer (some s)) (first_part-print z t h) ∙ parse_integer_plain z small

magnitude-times : (z : ℤ) (k : ℕ) → magnitude (times z k) ≡ magnitude z * k
unfolding times
magnitude-times (pos n) k = ground arith
magnitude-times (negsuc n) k = ground arith

magnitude-add : (a b : ℤ) → magnitude (a +ℤ b) ≤ magnitude a + magnitude b
unfolding ◌+ℤ◌
magnitude-add (pos a) (pos b) = ground arith
magnitude-add (pos a) (negsuc b) = ground arith
magnitude-add (negsuc a) (pos b) = ground arith
magnitude-add (negsuc a) (negsuc b) = ground arith

reset_at_exact :
    (seconds now_ms : ℤ)
    → magnitude now_ms + magnitude seconds * 1000 ≤ 2 ^ 53
    → reset_at (some seconds) now_ms ≡ some (now_ms +ℤ times seconds 1000)
unfolding reset_at
reset_at_exact seconds now_ms h = ap some (
    ap (λ x. round (now_ms +ℤ x))
      (round_small (times seconds 1000) (omega (arith, magnitude-times seconds 1000, h)))
    ∙ round_small (now_ms +ℤ times seconds 1000)
        (omega (arith, magnitude-add now_ms (times seconds 1000), magnitude-times seconds 1000, h)))

module _ (date_parse : Text → Option ℤ) where
  retry_after_of-digits :
      (s : Text) (n : ℕ) (now_ms : ℤ)
      → s ≢ []
      → All IsDigit s
      → digits_from 0 s ≡ n
      → n * 1000 ≤ 2 ^ 53
      → retry_after_of date_parse s now_ms ≡ some (pos (n * 1000))
  unfolding retry_after_of
  retry_after_of-digits [] n now_ms h k e small = absurd (h refl)
  retry_after_of-digits (c ∷ s) n now_ms h k e small =
      rw (is_digits_of_All (c ∷ s) h k, e, double_of_small n (omega arith))
        (ap some (round_small (pos (n * 1000)) small))

  parse_retry_after-print :
      (n : ℕ) (now_ms : ℤ)
      → n * 1000 ≤ 2 ^ 53
      → parse_retry_after date_parse (some (print_ℕ n)) now_ms ≡ some (pos (n * 1000))
  unfolding parse_retry_after
  parse_retry_after-print n now_ms small =
      let trimmed =
        ap trim (sym (append-nil (print_ℕ n)))
        ∙ trim-word [] (print_ℕ n) [] tt tt (print_ℕ-IsWord n) in
      ap (λ s. retry_after_of date_parse s now_ms) trimmed
      ∙ unfold print_ℕ in
        retry_after_of-digits (print_ℕ n) n now_ms (print_from-ne-nil n n)
          (print_from-digits (suc n) n (omega arith)) (digits_from-print (suc n) n (omega arith))
          small

-- A response whose limit, remaining calls, seconds to the reset and `Retry-After` seconds are
-- printed in decimal, the limit with or without quota policies after a comma or a semicolon, is
-- read as a snapshot of these numbers, whatever the prefix of the headers: the reset falls 1000 ms
-- after the reading for each of its seconds, and the wait is 1000 ms for each of its own. No number
-- on the way may be above 2^53.
pub parse_rate_limit-print :
    (date_parse : Text → Option ℤ) (headers : Text → Option Text) (prefix policies : Text)
    (limit remaining reset now_ms : ℤ) (wait : ℕ)
    → headers (prefix ++ codes "-limit") ≡ some (print limit ++ policies)
    → headers (prefix ++ codes "-remaining") ≡ some (print remaining)
    → headers (prefix ++ codes "-reset") ≡ some (print reset)
    → headers (codes "retry-after") ≡ some (print_ℕ wait)
    → IsPolicyPart policies
    → magnitude limit ≤ 2 ^ 53
    → magnitude remaining ≤ 2 ^ 53
    → magnitude now_ms + magnitude reset * 1000 ≤ 2 ^ 53
    → wait * 1000 ≤ 2 ^ 53
    → parse_rate_limit date_parse headers prefix now_ms ≡ record {
      limit = some limit;
      remaining = some remaining;
      reset_seconds = some reset;
      reset_at_ms = some (now_ms +ℤ times reset 1000);
      retry_after_ms = some (pos (wait * 1000));
    }
unfolding parse_rate_limit
parse_rate_limit-print date_parse headers prefix policies limit remaining reset now_ms wait h_limit
      h_remaining h_reset h_wait policy small_limit small_remaining small_reset small_wait =
    rw
      (
        h_limit,
        h_remaining,
        h_reset,
        h_wait,
        parse_limit-print limit policies policy small_limit,
        parse_integer_plain remaining small_remaining,
        parse_integer_plain reset (omega arith),
        reset_at_exact reset now_ms small_reset,
        parse_retry_after-print date_parse wait now_ms small_wait,
      )
      refl
