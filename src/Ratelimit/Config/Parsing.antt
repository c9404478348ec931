-- ===== src/Ratelimit/Config/Parsing.antt =====
-- What `parseRateLimitOptions` resolves, and that `selectTier` finds the best tier of it.
use lightbridge_opencode_too.Common.{
  ℕ, ◌≡◌, ◌≢◌, ◌↔◌, refl, inl, inr, true, false, Option, none, some, List, [], ◌∷◌, arith, All-In,
  In, here, there, last?, Bool-cases, or_else,
}
use lightbridge_opencode_too.Common.Int.{ℤ, pos}
use lightbridge_opencode_too.Common.Text.{Text}
use lightbridge_opencode_too.Common.Js.{Value, array, Items, Fields, get, items}
use lightbridge_opencode_too.Ratelimit.{Tier, Options}
use lightbridge_opencode_too.Ratelimit.Config.{
  as_record, as_boolean, parse_tiers, flat_tier, resolve_tiers, resolve_options,
  parse_rate_limit_options, covers, find_tier, select_tier,
}
use lightbridge_opencode_too.Ratelimit.Config.Policy.{
  BoundLe, IsBelow, IsSorted, IsPolicy, normalize_tiers-IsPolicy,
}

-- `t` is the tier of `ts` for a reset: it covers the reset, and no smaller bound does.
pub record IsBest (ts : List Tier) (reset : ℤ) (t : Tier) : Type 0 where
  pub member : In t ts
  pub covering : covers t.max_reset_seconds reset ≡ true
  pub smallest : (u : Tier) → In u ts → covers u.max_reset_seconds reset ≡ true → IsBelow t u

BoundLe-refl : (a : Option ℕ) → BoundLe a a
BoundLe-refl none = tt
BoundLe-refl (some a) = omega arith

covers_smallest :
    (t : Tier) (ts : List Tier) (reset : ℤ)
    → IsSorted (t ∷ ts)
    → covers t.max_reset_seconds reset ≡ true
    → IsBest (t ∷ ts) reset t
covers_smallest t ts reset s h = record {
  member = here;
  covering = h;
  smallest = λ u m _. elim_member u m;
}
  where
    elim_member : (u : Tier) → In u (t ∷ ts) → IsBelow t u
    elim_member u m = All-In (IsBelow t) (t ∷ ts) (BoundLe-refl t.max_reset_seconds, s.0) m

IsBest-cons :
    (t u : Tier) (ts : List Tier) (reset : ℤ)
    → covers u.max_reset_seconds reset ≡ false
    → IsBest ts reset t
    → IsBest (u ∷ ts) reset t
IsBest-cons t u ts reset h b = record {
  member = there b.member;
  covering = b.covering;
  smallest = λ v m c. split v m c;
}
  where
    split : (v : Tier) → In v (u ∷ ts) → covers v.max_reset_seconds reset ≡ true → IsBelow t v
    split v here c = cc
    split v (there m) c = b.smallest v m c

find_tier-IsBest :
    (ts : List Tier) (reset : ℤ) (fallback : Option Tier)
    → IsPolicy ts
    → (t : Tier) × (find_tier ts reset fallback ≡ some t) × IsBest ts reset t
unfolding find_tier
find_tier-IsBest [] reset fallback p = absurd p.ends
find_tier-IsBest (t ∷ []) reset fallback p =
    let h : covers t.max_reset_seconds reset ≡ true = unfold covers in rw p.ends in
    (t, rw h, covers_smallest t [] reset p.sorted h)
find_tier-IsBest (t ∷ u ∷ us) reset fallback p =
    let (v, found, best) =
      find_tier-IsBest (u ∷ us) reset fallback (record { sorted = p.sorted.1; ends = p.ends }) in
    elim (Bool-cases (covers t.max_reset_seconds reset)) [
      | inl h ↦ (t, rw h, covers_smallest t (u ∷ us) reset p.sorted h)
      | inr h ↦ (v, rw h found, IsBest-cons v t (u ∷ us) reset h best)
    ]

-- On a policy `selectTier` returns the tier with the smallest bound that covers the reset, an
-- unknown reset counting as 0; the result is never undefined.
pub select_tier-IsBest :
    (ts : List Tier) (reset : Option ℤ)
    → IsPolicy ts
    → (t : Tier) × (select_tier ts reset ≡ some t) × IsBest ts (or_else reset (pos 0)) t
unfolding select_tier
select_tier-IsBest ts reset p = find_tier-IsBest ts (or_else reset (pos 0)) (last? ts) p

resolve_tiers-IsPolicy : (v : Value) (fs : Fields) → IsPolicy (resolve_tiers v fs)
unfolding resolve_tiers
resolve_tiers-IsPolicy (array (Items.cons v vs)) fs =
    (normalize_tiers-IsPolicy (parse_tiers (v ∷ items vs))).0
resolve_tiers-IsPolicy _ fs = unfold flat_tier in record { sorted = (tt, tt); ends = refl }

-- The `meta.rateLimit` object, where the provider's options hold one.
abbrev pub block : Option Fields → Option Fields
block none = none
block (some options) = elim (as_record (get "meta" options)) [
  | none ↦ none
  | some meta ↦ as_record (get "rateLimit" meta)
]

module _ (to_lower_case : Text → Text) where
  resolve_options-IsPolicy :
      (fs : Fields) (o : Options) → resolve_options to_lower_case fs ≡ some o → IsPolicy o.tiers
  unfolding resolve_options
  resolve_options-IsPolicy fs o h = elim (Bool-cases (as_boolean (get "enabled" fs) true)) [
    | inl e ↦
        let same : resolve_tiers (get "tiers" fs) fs ≡ o.tiers = ground arith in
        rw (← same) (resolve_tiers-IsPolicy (get "tiers" fs) fs)
    | inr e ↦ absurd (ground arith)
  ]

  resolve_options_enabled :
      (fs : Fields)
      → (resolve_options to_lower_case fs ≢ none) ↔ (as_boolean (get "enabled" fs) true ≡ true)
  unfolding resolve_options
  resolve_options_enabled fs = ground arith

  abbrev after_block : Option Fields → Option Options
  after_block none = none
  after_block (some fs) = resolve_options to_lower_case fs

  parse-after_block :
      (options : Option Fields)
      → parse_rate_limit_options to_lower_case options ≡ after_block (block options)
  unfolding parse_rate_limit_options
  parse-after_block options = ground arith

  abbrev OptIn : Option Fields → Type 0
  OptIn b = (fs : Fields) × (b ≡ some fs) × (as_boolean (get "enabled" fs) true ≡ true)

  after_block-OptIn :
      (b : Option Fields)
      → ((o : Options) → after_block b ≡ some o → IsPolicy o.tiers)
        × ((after_block b ≢ none) ↔ OptIn b)
  after_block-OptIn none = (λ o h. cc, (λ h. absurd (h refl), λ w. cc (w.1)))
  after_block-OptIn (some fs) = (
    resolve_options-IsPolicy fs,
    (
      λ h. (fs, refl, (resolve_options_enabled fs).0 h),
      λ w.
          let same : fs ≡ w.0 = ground (arith, w.1) in (resolve_options_enabled fs).1 (rw same w.2),
    ),
  )

  -- A provider has opted in exactly when its options hold a `meta.rateLimit` object that does not
  -- say `enabled: false`; its tiers then are a policy.
  pub parse_rate_limit_options_opt_in :
      (options : Option Fields)
      → ((o : Options) → parse_rate_limit_options to_lower_case options ≡ some o → IsPolicy o.tiers)
        × ((parse_rate_limit_options to_lower_case options ≢ none) ↔ (
            (fs : Fields) × (block options ≡ some fs)
            × (as_boolean (get "enabled" fs) true ≡ true)))
  parse_rate_limit_options_opt_in options =
      rw (parse-after_block options) (after_block-OptIn (block options))
