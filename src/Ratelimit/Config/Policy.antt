-- ===== src/Ratelimit/Config/Policy.antt =====
-- The order of the tiers that config.ts builds, and the tier that it selects.
use mathlib.Core.List.{Perm}
use mathlib.Core.List.Perm
use lightbridge_opencode_too.Common.{
  ℕ, ◌≤◌, ◌≡◌, refl, inl, inr, true, false, Option, none, some, List, [], ◌∷◌, ◌++◌, arith, All,
  All-append, last?, Bool-cases, if◌then◌else◌, ◌||◌,
}
use lightbridge_opencode_too.Common.Int.{pos, leb_ℤ}
use lightbridge_opencode_too.Ratelimit.{Tier}
use lightbridge_opencode_too.Ratelimit.Config.{
  compare_bounds, insert_tier, sort_tiers, has_catch_all, is_catch_all, catch_all_tier,
  normalize_tiers,
}

-- The order of bounds, in which the catch-all is the greatest.
abbrev pub BoundLe : Option ℕ → Option ℕ → Type 0
BoundLe a none = Unit
BoundLe none (some b) = ⊥
BoundLe (some a) (some b) = a ≤ b

abbrev pub IsBelow : Tier → Tier → Type 0
IsBelow t u = BoundLe t.max_reset_seconds u.max_reset_seconds

abbrev pub IsSorted : List Tier → Type 0
IsSorted [] = Unit
IsSorted (t ∷ ts) = All (IsBelow t) ts × IsSorted ts

abbrev EndsUnbounded : Option Tier → Type 0
EndsUnbounded none = ⊥
EndsUnbounded (some t) = t.max_reset_seconds ≡ none

-- What `selectTier` expects of a policy.
pub record IsPolicy (ts : List Tier) : Type 0 where
  pub sorted : IsSorted ts
  pub ends : EndsUnbounded (last? ts)

BoundLe-trans : (a b c : Option ℕ) → BoundLe a b → BoundLe b c → BoundLe a c
BoundLe-trans a b none p q = tt
BoundLe-trans none none (some c) p q = q
BoundLe-trans none (some b) (some c) p q = p
BoundLe-trans (some a) none (some c) p q = absurd q
BoundLe-trans (some a) (some b) (some c) p q = omega arith

-- The sign of the comparator decides the order.
le_of_compare : (a b : Option ℕ) → leb_ℤ (compare_bounds a b) (pos 0) ≡ true → BoundLe a b
unfolding compare_bounds
le_of_compare none none h = tt
le_of_compare (some a) none h = tt
le_of_compare none (some b) h = cc
le_of_compare (some a) (some b) h = ground arith

ge_of_compare : (a b : Option ℕ) → leb_ℤ (compare_bounds a b) (pos 0) ≡ false → BoundLe b a
unfolding compare_bounds
ge_of_compare none none h = tt
ge_of_compare none (some b) h = tt
ge_of_compare (some a) none h = cc
ge_of_compare (some a) (some b) h = ground arith

IsBelow-All : (t u : Tier) (us : List Tier) → IsBelow t u → All (IsBelow u) us → All (IsBelow t) us
IsBelow-All t u [] h k = tt
IsBelow-All t u (v ∷ us) h k = (
  BoundLe-trans t.max_reset_seconds u.max_reset_seconds v.max_reset_seconds h k.0,
  IsBelow-All t u us h k.1,
)

insert_tier-All :
    (P : Tier → Type 0) (t : Tier) (us : List Tier) → P t → All P us → All P (insert_tier t us)
unfolding insert_tier
insert_tier-All P t [] p h = (p, tt)
insert_tier-All P t (u ∷ us) p h =
    elim (Bool-cases (leb_ℤ (compare_bounds t.max_reset_seconds u.max_reset_seconds) (pos 0))) [
      | inl e ↦ rw e (p, h)
      | inr e ↦ rw e (h.0, insert_tier-All P t us p h.1)
    ]

insert_tier-IsSorted : (t : Tier) (us : List Tier) → IsSorted us → IsSorted (insert_tier t us)
unfolding insert_tier
insert_tier-IsSorted t [] s = (tt, tt)
insert_tier-IsSorted t (u ∷ us) s =
    elim (Bool-cases (leb_ℤ (compare_bounds t.max_reset_seconds u.max_reset_seconds) (pos 0))) [
      | inl e ↦
          let le = le_of_compare t.max_reset_seconds u.max_reset_seconds e in
          rw e ((le, IsBelow-All t u us le s.0), s)
      | inr e ↦ rw e (
        insert_tier-All (IsBelow u) t us (ge_of_compare t.max_reset_seconds u.max_reset_seconds e)
            s.0,
        insert_tier-IsSorted t us s.1,
      )
    ]

sort_tiers-IsSorted : (ts : List Tier) → IsSorted (sort_tiers ts)
unfolding sort_tiers
sort_tiers-IsSorted [] = tt
sort_tiers-IsSorted (t ∷ ts) = insert_tier-IsSorted t (sort_tiers ts) (sort_tiers-IsSorted ts)

insert_tier-perm : (t : Tier) (us : List Tier) → Perm (insert_tier t us) (t ∷ us)
unfolding insert_tier
insert_tier-perm t [] = Perm.refl _
insert_tier-perm t (u ∷ us) =
    elim (Bool-cases (leb_ℤ (compare_bounds t.max_reset_seconds u.max_reset_seconds) (pos 0))) [
      | inl e ↦ rw e (Perm.refl _)
      | inr e ↦ rw e (Perm.trans (Perm.cons u (insert_tier-perm t us)) (Perm.swap t u us))
    ]

sort_tiers-perm : (ts : List Tier) → Perm (sort_tiers ts) ts
unfolding sort_tiers
sort_tiers-perm [] = Perm.nil
sort_tiers-perm (t ∷ ts) =
    Perm.trans (insert_tier-perm t (sort_tiers ts)) (Perm.cons t (sort_tiers-perm ts))

has_catch_all-insert_tier :
    (t : Tier) (us : List Tier) → has_catch_all (insert_tier t us) ≡ has_catch_all (t ∷ us)
unfolding insert_tier has_catch_all
has_catch_all-insert_tier t [] = refl
has_catch_all-insert_tier t (u ∷ us) = ground (arith, has_catch_all-insert_tier t us)

has_catch_all-sort_tiers : (ts : List Tier) → has_catch_all (sort_tiers ts) ≡ has_catch_all ts
unfolding sort_tiers has_catch_all
has_catch_all-sort_tiers [] = refl
has_catch_all-sort_tiers (t ∷ ts) =
    ground (arith, has_catch_all-insert_tier t (sort_tiers ts), has_catch_all-sort_tiers ts)

-- In a sorted list a catch-all comes last.
last_of_has_catch_all :
    (ts : List Tier) → IsSorted ts → has_catch_all ts ≡ true → EndsUnbounded (last? ts)
unfolding has_catch_all
last_of_has_catch_all [] s h = cc
last_of_has_catch_all (t ∷ []) s h = ground arith
last_of_has_catch_all (t ∷ u ∷ us) s h =
    last_of_has_catch_all (u ∷ us) s.1 (later t.max_reset_seconds u.max_reset_seconds h s.0.0)
  where
    later :
        (a b : Option ℕ)
        → (is_catch_all a || (is_catch_all b || has_catch_all us)) ≡ true
        → BoundLe a b
        → (is_catch_all b || has_catch_all us) ≡ true
    later none none h k = refl
    later none (some b) h k = absurd k
    later (some a) b h k = h

last-append : (ts : List Tier) (t : Tier) → last? (ts ++ t ∷ []) ≡ some t
last-append [] t = refl
last-append (u ∷ []) t = refl
last-append (u ∷ v ∷ us) t = last-append (v ∷ us) t

append-IsSorted : (ts : List Tier) → IsSorted ts → IsSorted (ts ++ catch_all_tier ∷ [])
append-IsSorted [] s = (tt, tt)
append-IsSorted (t ∷ ts) s =
    (All-append (IsBelow t) ts (catch_all_tier ∷ []) s.0 (tt, tt), append-IsSorted ts s.1)

-- `normalizeTiers` yields a policy (sorted by bound, a catch-all last) that holds the given tiers,
-- each as often as given, and one more catch-all exactly where none was given.
pub normalize_tiers-IsPolicy :
    (ts : List Tier)
    → IsPolicy (normalize_tiers ts)
      × Perm (normalize_tiers ts) (if has_catch_all ts then ts else ts ++ catch_all_tier ∷ [])
unfolding normalize_tiers
normalize_tiers-IsPolicy ts = elim (Bool-cases (has_catch_all (sort_tiers ts))) [
  | inl e ↦
      rw (e, ← has_catch_all-sort_tiers ts, e)
        (
          record {
            sorted = sort_tiers-IsSorted ts;
            ends = last_of_has_catch_all (sort_tiers ts) (sort_tiers-IsSorted ts) e;
          },
          sort_tiers-perm ts,
        )
  | inr e ↦
      rw (e, ← has_catch_all-sort_tiers ts, e)
        (
          record {
            sorted = append-IsSorted (sort_tiers ts) (sort_tiers-IsSorted ts);
            ends = rw (last-append (sort_tiers ts) catch_all_tier);
          },
          Perm.append (sort_tiers-perm ts) (Perm.refl _),
        )
]
