-- ===== src/Ratelimit/Fetch/Keys.antt =====
-- The buckets of one provider's store.
use mathlib.Core.List.{append_cancel_left}
use lightbridge_opencode_too.Common.{
  ℕ, ◌≡◌, ◌≢◌, sym, ap, refl, Option, none, some, [], ◌∷◌, ◌++◌, arith, length, length-append,
}
use lightbridge_opencode_too.Common.Text.{Text}
use lightbridge_opencode_too.Ratelimit.Fetch.{bucket_key}

-- The model that the wrapper passes on: `modelFromBody` returns no empty name.
abbrev pub IsModel : Option Text → Type 0
IsModel none = Unit
IsModel (some m) = m ≢ []

longer : (p : Text) (c : ℕ) (s : Text) → p ++ 0 ∷ c ∷ s ≢ p
longer p c s e = omega (arith, ap length e, length-append p (0 ∷ c ∷ s))

-- Two calls of a provider share a bucket only if they ask for the same model, or both for none.
pub bucket_key-injective :
    (provider_id : Text) (m n : Option Text)
    → IsModel m
    → IsModel n
    → bucket_key provider_id m ≡ bucket_key provider_id n
    → m ≡ n
unfolding bucket_key
bucket_key-injective p none none h k e = refl
bucket_key-injective p none (some []) h k e = absurd (k refl)
bucket_key-injective p none (some (d ∷ t)) h k e = absurd (longer p d t (sym e))
bucket_key-injective p (some []) n h k e = absurd (h refl)
bucket_key-injective p (some (c ∷ s)) none h k e = absurd (longer p c s e)
bucket_key-injective p (some (c ∷ s)) (some []) h k e = absurd (k refl)
bucket_key-injective p (some (c ∷ s)) (some (d ∷ t)) h k e =
    let same = append_cancel_left p (0 ∷ c ∷ s) (0 ∷ d ∷ t) e in cc same
