-- ===== src/Auth/Flight.antt =====
-- packages/opencode-auth-core/src/token-runtime.ts: `ensure` and its slot for the refresh in flight,
-- over any number of concurrent callers. A promise is its number; `running` holds the refreshes that
-- have begun and not ended.
use lightbridge_opencode_too.Common.{
  ℕ, suc, ◌≡◌, refl, inl, inr, Bool, true, false, Option, none, some, List, [], ◌∷◌, ◌==◌,
  Bool-cases, if◌then◌else◌,
}
use lightbridge_opencode_too.Auth.{TokenSet, AuthFlow, is_token_valid}

pub record Slot : Type 0 where
  pub in_flight : Option ℕ
  pub running : List ℕ
  pub next : ℕ

pub data Call : Type 0 where
  returned : TokenSet → Call
  awaits : ℕ → Call

join_or_start : Option ℕ → Slot → Slot × Call
join_or_start (some existing) slot = (slot, awaits existing)
join_or_start none slot = (
  record { in_flight = some slot.next; running = slot.next ∷ slot.running; next = suc slot.next },
  awaits slot.next,
)

return_or_join : Option TokenSet → Bool → Slot → Slot × Call
unfolding join_or_start
return_or_join (some token) true slot = (slot, returned token)
return_or_join cached valid slot = join_or_start slot.in_flight slot

-- `ensure`, for a caller that has read `cached` and checks it at the time `now`.
unfoldable pub ensure : AuthFlow → ℕ → ℕ → Option TokenSet → Slot → Slot × Call
unfolding return_or_join
ensure flow skew now cached slot = return_or_join cached (is_token_valid flow skew now cached) slot

remove : ℕ → List ℕ → List ℕ
remove p [] = []
remove p (q ∷ qs) = let rest = remove p qs in if q == p then rest else q ∷ rest

is_in_flight : Option ℕ → ℕ → Bool
is_in_flight none p = false
is_in_flight (some q) p = q == p

-- The refresh `p` ends, and its `finally` clears the slot where it still holds `p`.
unfoldable pub end_refresh : ℕ → Slot → Slot
unfolding remove is_in_flight
end_refresh p slot = record slot {
  in_flight = if is_in_flight slot.in_flight p then none else slot.in_flight;
  running = remove p slot.running;
}

-- The slots that calls and ends of refreshes can reach.
pub data Reachable (flow : AuthFlow) (skew : ℕ) : Slot → Type 0 where
  begin : Reachable flow skew (record { in_flight = none; running = []; next = 0 })
  called :
      (now : ℕ) (cached : Option TokenSet) {slot : Slot}
      → Reachable flow skew slot
      → Reachable flow skew (ensure flow skew now cached slot).0
  ended :
      (p : ℕ) {slot : Slot} → Reachable flow skew slot → Reachable flow skew (end_refresh p slot)

-- Nothing is in flight, or the one refresh that runs.
abbrev pub IsSingle : Option ℕ → List ℕ → Type 0
IsSingle none ps = ps ≡ []
IsSingle (some p) ps = ps ≡ p ∷ []

removed-IsSingle :
    (p : ℕ) (o : Option ℕ) (ps : List ℕ)
    → IsSingle o ps
    → IsSingle (if is_in_flight o p then none else o) (remove p ps)
unfolding remove is_in_flight
removed-IsSingle p none ps h = rw h refl
removed-IsSingle p (some q) ps h =
    rw h (elim (Bool-cases (q == p)) [ inl e ↦ rw e refl | inr e ↦ rw e refl ])

join_or_start-IsSingle :
    (o : Option ℕ) (slot : Slot)
    → slot.in_flight ≡ o
    → IsSingle o slot.running
    → IsSingle (join_or_start o slot).0.in_flight (join_or_start o slot).0.running
unfolding join_or_start
join_or_start-IsSingle none slot at h = rw h refl
join_or_start-IsSingle (some p) slot at h = rw at h

return_or_join-IsSingle :
    (cached : Option TokenSet) (valid : Bool) (slot : Slot)
    → IsSingle slot.in_flight slot.running
    → IsSingle
        (return_or_join cached valid slot).0.in_flight
        (return_or_join cached valid slot).0.running
unfolding return_or_join
return_or_join-IsSingle (some t) true slot h = h
return_or_join-IsSingle (some t) false slot h = join_or_start-IsSingle slot.in_flight slot refl h
return_or_join-IsSingle none valid slot h = join_or_start-IsSingle slot.in_flight slot refl h

module _ (flow : AuthFlow) (skew : ℕ) where
  Reachable-IsSingle :
      {slot : Slot} → Reachable flow skew slot → IsSingle slot.in_flight slot.running
  unfolding ensure end_refresh
  Reachable-IsSingle begin = refl
  Reachable-IsSingle (called now cached {slot} r) =
      return_or_join-IsSingle cached (is_token_valid flow skew now cached) slot
        (Reachable-IsSingle r)
  Reachable-IsSingle (ended p {slot} r) =
      removed-IsSingle p slot.in_flight slot.running (Reachable-IsSingle r)

-- What a caller gets: the token that it has read, which is valid, or the only refresh that runs.
abbrev pub Gets : Option TokenSet → Bool → Slot → Call → Type 0
Gets cached valid slot (returned token) = (cached ≡ some token) × (valid ≡ true)
Gets cached valid slot (awaits p) = (valid ≡ false) × (slot.running ≡ p ∷ [])

join_or_start-Gets :
    (cached : Option TokenSet) (o : Option ℕ) (slot : Slot)
    → IsSingle o slot.running
    → Gets cached false (join_or_start o slot).0 (join_or_start o slot).1
unfolding join_or_start
join_or_start-Gets cached none slot h = (refl, rw h refl)
join_or_start-Gets cached (some p) slot h = (refl, h)

-- Concurrent calls share one refresh. In every slot that calls and ends of refreshes can reach, a call of
-- `ensure` returns the cached token where that is valid, and otherwise awaits the one refresh that
-- runs then.
pub ensure-Gets :
    (flow : AuthFlow) (skew now : ℕ) (cached : Option TokenSet) (slot : Slot)
    → Reachable flow skew slot
    → Gets cached
        (is_token_valid flow skew now cached)
        (ensure flow skew now cached slot).0
        (ensure flow skew now cached slot).1
unfolding ensure return_or_join is_token_valid
ensure-Gets flow skew now none slot r =
    join_or_start-Gets none slot.in_flight slot (Reachable-IsSingle flow skew r)
ensure-Gets flow skew now (some token) slot r =
    elim (Bool-cases (is_token_valid flow skew now (some token))) [
      | inl e ↦ rw e (refl, refl)
      | inr e ↦
          rw e
            (join_or_start-Gets (some token) slot.in_flight slot (Reachable-IsSingle flow skew r))
    ]
