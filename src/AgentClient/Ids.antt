-- ===== src/AgentClient/Ids.antt =====
-- packages/opencode-browser/src/protocol.ts: the ids of commands differ.
use native.Mathlib.Nat.{mod-eq_of_lt}
use lightbridge_opencode_too.Common.{
  ℕ, zero, suc, ◌+◌, ◌-◌, ◌/◌, ◌%◌, ◌<◌, ◌≡◌, refl, sym, ap, ◌∙◌, [], ◌∷◌, arith, ltb,
  if◌then◌else◌, Bool-cases, inl, inr,
}
use lightbridge_opencode_too.Common.Text.{Text}
use lightbridge_opencode_too.Broker.Routing.{print_36, next_id, max_safe_integer}
use lightbridge_opencode_too.Devtools.Radix.{digit_char, print_digits, read_digits}
use lightbridge_opencode_too.Devtools.Radix.RoundTrip.{read-print_digits}

-- The id of the command with a number.
unfoldable pub id_of : ℕ → Text
id_of k = b'c' ∷ print_36 (suc k) k

digit_lem : (d : ℕ) → (if ltb d 10 then b'0' + d else b'a' + (d - 10)) ≡ digit_char d
unfolding digit_char
digit_lem d = ground arith

print_36_lem : (f n : ℕ) → print_36 f n ≡ print_digits 36 f n
unfolding print_36 print_digits
print_36_lem zero n = refl
print_36_lem (suc f) n = elim (Bool-cases (ltb n 36)) [
  | inl e ↦
      rw (e, digit_lem (n % 36))
        (let small : n % 36 ≡ n = mod-eq_of_lt (ground (arith, e)) in
          ap (λ d. digit_char d ∷ []) small)
  | inr e ↦ rw (e, digit_lem (n % 36), print_36_lem f (n / 36)) refl
]

pub id_of-injective : (j k : ℕ) → id_of j ≡ id_of k → j ≡ k
unfolding id_of
id_of-injective j k e =
    let same : print_digits 36 (suc j) j ≡ print_digits 36 (suc k) k =
      sym (print_36_lem (suc j) j) ∙ ap (tail_of) e ∙ print_36_lem (suc k) k in
    sym (read-print_digits 36 (omega arith) (omega arith) (suc j) j (omega arith))
    ∙ ap (read_digits 36 0) same
    ∙ read-print_digits 36 (omega arith) (omega arith) (suc k) k (omega arith)
  where
    tail_of : Text → Text
    tail_of [] = []
    tail_of (c ∷ s) = s

pub next_id_lem : (n : ℕ) → n + 1 < max_safe_integer → (next_id n).0 ≡ n + 1
unfolding next_id
next_id_lem n h = mod-eq_of_lt h

pub next_id-id_of : (n : ℕ) → n + 1 < max_safe_integer → (next_id n).1 ≡ id_of (n + 1)
unfolding next_id id_of
next_id-id_of n h = rw (mod-eq_of_lt h) refl
