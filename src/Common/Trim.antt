-- ===== src/Common/Trim.antt =====
-- `trim` of a text with white space around it.
use Prim.Native.Nat.{ℕ}
use mathlib.Core.Path.{◌≡◌, refl, sym, ◌∙◌, ap}
use mathlib.Core.Logic.{◌≢◌, inl, inr}
use mathlib.Core.Bool.{true, false}
use mathlib.Core.List.{[], ◌∷◌, ◌++◌, reverse, reverse-append, reverse-reverse, reverse-cons}
use lightbridge_opencode_too.Common.Tests.{Bool-cases}
use lightbridge_opencode_too.Common.Lists.{All, All-append}
use lightbridge_opencode_too.Common.Text.{Text, is_space, trim_start, trim}

abbrev pub IsSpace : ℕ → Type 0
IsSpace c = is_space c ≡ true

abbrev pub IsMark : ℕ → Type 0
IsMark c = is_space c ≡ false

-- A run of characters none of which is white space.
abbrev pub IsWord : Text → Type 0
IsWord s = (s ≢ []) × All IsMark s

trim_start-word : (l s : Text) → All IsSpace l → IsWord s → trim_start (l ++ s) ≡ s
unfolding trim_start
trim_start-word [] [] h w = refl
trim_start-word [] (c ∷ s) h w = rw (w.1.0)
trim_start-word (d ∷ l) s h w = rw (h.0) (trim_start-word l s h.1 w)

trim_start-prefix : (s r : Text) → IsWord s → trim_start (s ++ r) ≡ s ++ r
unfolding trim_start
trim_start-prefix [] r w = absurd (w.0 refl)
trim_start-prefix (c ∷ s) r w = rw (w.1.0)

All-reverse : (P : ℕ → Type 0) (s : Text) → All P s → All P (reverse s)
All-reverse P [] h = tt
All-reverse P (c ∷ s) h =
    rw (reverse-cons c s) (All-append P (reverse s) (c ∷ []) (All-reverse P s h.1) (h.0, tt))

reverse-IsWord : (s : Text) → IsWord s → IsWord (reverse s)
reverse-IsWord s w = (λ e. w.0 (sym (reverse-reverse s) ∙ ap reverse e), All-reverse IsMark s w.1)

trim_start-pad : (l s r : Text) → All IsSpace l → IsWord s → trim_start (l ++ (s ++ r)) ≡ s ++ r
unfolding trim_start
trim_start-pad [] s r h w = trim_start-prefix s r w
trim_start-pad (d ∷ l) s r h w = rw (h.0) (trim_start-pad l s r h.1 w)

pub trim-word : (l s r : Text) → All IsSpace l → All IsSpace r → IsWord s → trim (l ++ (s ++ r)) ≡ s
unfolding trim
trim-word l s r h k w =
    rw
      (
        trim_start-pad l s r h w,
        reverse-append s r,
        trim_start-word (reverse r) (reverse s) (All-reverse IsSpace r k) (reverse-IsWord s w),
      )
      (reverse-reverse s)

-- `trim` of what `trim` gives.
trim_start-twice : (s : Text) → trim_start (trim_start s) ≡ trim_start s
unfolding trim_start
trim_start-twice [] = refl
trim_start-twice (c ∷ s) = elim (Bool-cases (is_space c)) [
  | inl e ↦ rw e (trim_start-twice s)
  | inr e ↦ rw (e, e) refl
]

trim_start-append :
    (s : Text) (c : ℕ) → IsMark c → trim_start (s ++ c ∷ []) ≡ trim_start s ++ c ∷ []
unfolding trim_start
trim_start-append [] c m = rw m refl
trim_start-append (d ∷ s) c m = elim (Bool-cases (is_space d)) [
  | inl e ↦ rw e (trim_start-append s c m)
  | inr e ↦ rw e refl
]

-- Nothing, or a text that starts with a mark.
StartsMarked : Text → Type 0
StartsMarked [] = Unit
StartsMarked (c ∷ s) = IsMark c

trim_start-StartsMarked : (s : Text) → StartsMarked (trim_start s)
unfolding trim_start StartsMarked
trim_start-StartsMarked [] = tt
trim_start-StartsMarked (c ∷ s) = elim (Bool-cases (is_space c)) [
  | inl e ↦ rw e (trim_start-StartsMarked s)
  | inr e ↦ rw e e
]

trim_start_marked : (s : Text) → StartsMarked s → trim_start s ≡ s
unfolding trim_start StartsMarked
trim_start_marked [] h = refl
trim_start_marked (c ∷ s) h = rw h refl

reverse_trimmed : (s : Text) → StartsMarked s → StartsMarked (reverse (trim_start (reverse s)))
unfolding trim_start StartsMarked
reverse_trimmed [] h = tt
reverse_trimmed (c ∷ s) h =
    let shape : reverse (trim_start (reverse (c ∷ s))) ≡ c ∷ reverse (trim_start (reverse s)) =
      ap (λ t. reverse (trim_start t)) (reverse-cons c s)
      ∙ ap reverse (trim_start-append (reverse s) c h)
      ∙ reverse-append (trim_start (reverse s)) (c ∷ []) in
    rw shape h

pub trim-trim : (s : Text) → trim (trim s) ≡ trim s
unfolding trim
trim-trim s =
    let t = trim_start s in
    let u = reverse (trim_start (reverse t)) in
    let front : trim_start u ≡ u =
      trim_start_marked u (reverse_trimmed t (trim_start-StartsMarked s)) in
    rw (front, reverse-reverse (trim_start (reverse t)), trim_start-twice (reverse t)) refl
