-- ===== src/Ratelimit/Gate/Invariant.antt =====
-- The shared timer of a bucket is one of the running timers, with the due time that the bucket
-- records; and no call is held past its own target.
use lightbridge_opencode_too.Common.{
  ℕ, suc, ◌<◌, ◌≡◌, refl, inl, inr, true, false, Option, none, some, List, [], ◌∷◌, arith, All, In,
  here, there, Bool-cases, Option-cases, ◌==◌,
}
use lightbridge_opencode_too.Common.Int.{ℤ, pos, ◌+ℤ◌, ◌-ℤ◌, ◌≤ℤ◌, leb_ℤ, ltb_ℤ, int_laws, -ℤ_parts}
use lightbridge_opencode_too.Ratelimit.Fetch.{ProviderRateState}
use lightbridge_opencode_too.Ratelimit.Gate.{
  Shared, target, reuse, publish, create_timer, await_timer, turn, retire, without, fire,
}

-- Either there is no shared timer, or the one recorded runs and is due when recorded.
abbrev pub IsPublished : Option ℕ → Option ℤ → List (ℕ × ℤ) → Type 0
IsPublished none none ts = Unit
IsPublished none (some due) ts = ⊥
IsPublished (some id) none ts = ⊥
IsPublished (some id) (some due) ts = In (id, due) ts

pub record IsValid (w : Shared) : Type 0 where
  pub published : IsPublished w.bucket.cooldown_promise w.bucket.cooldown_promise_until_ms w.timers
  pub numbered : All (λ t. t.0 < w.fresh) w.timers

-- What a round promises: through at the target or later, or a running timer due by the target.
abbrev pub Promises : ℤ → ℤ → Shared → Option ℕ → Type 0
Promises now goal w none = goal ≤ℤ now
Promises now goal w (some id) = (due : ℤ) × In (id, due) w.timers × (due ≤ℤ goal) × ¬ (goal ≤ℤ now)

pub now_plus_remaining : (now goal : ℤ) → now +ℤ (goal -ℤ now) ≡ goal
now_plus_remaining now goal = omega int_laws

remaining_le : (goal now : ℤ) → leb_ℤ (goal -ℤ now) (pos 0) ≡ true → goal ≤ℤ now
remaining_le goal now h = ground (arith, -ℤ_parts goal now)

remaining_gt : (goal now : ℤ) → leb_ℤ (goal -ℤ now) (pos 0) ≡ false → ¬ (goal ≤ℤ now)
remaining_gt goal now h = ground (arith, -ℤ_parts goal now)

diff_le : (now goal u : ℤ) → ltb_ℤ (goal -ℤ now) (u -ℤ now) ≡ false → u ≤ℤ goal
diff_le now goal u h = ground (arith, -ℤ_parts goal now, -ℤ_parts u now)

All-weaken : (n : ℕ) (ts : List (ℕ × ℤ)) → All (λ t. t.0 < n) ts → All (λ t. t.0 < suc n) ts
All-weaken n [] h = tt
All-weaken n (t ∷ ts) h = (omega arith, All-weaken n ts h.1)

IsPublished-cons :
    (p : Option ℕ) (u : Option ℤ) (t : ℕ × ℤ) (ts : List (ℕ × ℤ))
    → IsPublished p u ts
    → IsPublished p u (t ∷ ts)
IsPublished-cons none none t ts h = tt
IsPublished-cons none (some due) t ts h = h
IsPublished-cons (some id) none t ts h = h
IsPublished-cons (some id) (some due) t ts h = there h

publish-IsPublished :
    (w : Shared) (due : ℤ)
    → IsValid w
    → IsPublished
        (publish w.bucket w.fresh due).cooldown_promise
        (publish w.bucket w.fresh due).cooldown_promise_until_ms
        ((w.fresh, due) ∷ w.timers)
unfolding publish
publish-IsPublished w due v = elim (Option-cases w.bucket.cooldown_promise) [
  | inl e ↦ rw e here
  | inr (id, e) ↦ rw e (
      IsPublished-cons (some id) w.bucket.cooldown_promise_until_ms _ w.timers
        (rw e at v.published))
]

create_timer-IsValid : (w : Shared) (due : ℤ) → IsValid w → IsValid (create_timer w due).0
unfolding create_timer
create_timer-IsValid w due v = record {
  published = publish-IsPublished w due v;
  numbered = (omega arith, All-weaken w.fresh w.timers v.numbered);
}

await_timer-IsValid :
    (w : Shared) (due : ℤ) (p : Option ℕ) → IsValid w → IsValid (await_timer w due p).0
unfolding await_timer
await_timer-IsValid w due none v = create_timer-IsValid w due v
await_timer-IsValid w due (some id) v = v

pub turn-IsValid :
    (w : Shared) (now : ℤ) (deadline : Option ℤ) → IsValid w → IsValid (turn w now deadline).0
unfolding turn
turn-IsValid w now deadline v =
    elim (Bool-cases (leb_ℤ (target w.bucket deadline -ℤ now) (pos 0))) [
      | inl e ↦ rw e v
      | inr e ↦ rw e (await_timer-IsValid w _ _ v)
    ]

-- What is reused runs, and ends by the target.
reuse_sound :
    (p : Option ℕ) (u : Option ℤ) (ts : List (ℕ × ℤ)) (now goal : ℤ) (id : ℕ)
    → IsPublished p u ts
    → reuse p u now (goal -ℤ now) ≡ some id
    → (due : ℤ) × In (id, due) ts × (due ≤ℤ goal)
unfolding reuse
reuse_sound none none ts now goal id h e = cc
reuse_sound none (some u) ts now goal id h e = absurd h
reuse_sound (some p) none ts now goal id h e = absurd h
reuse_sound (some p) (some u) ts now goal id h e =
    elim (Bool-cases (ltb_ℤ (goal -ℤ now) (u -ℤ now))) [
      | inl late ↦ let gone : none ≡ some id = rw late at e in cc gone
      | inr early ↦
          let same : some p ≡ some id = rw early at e in
          (u, let k : p ≡ id = ground (arith, same) in rw (← k) h, diff_le now goal u early)
    ]

await_timer-Promises :
    (w : Shared) (now goal : ℤ) (p : Option ℕ)
    → IsValid w
    → ¬ (goal ≤ℤ now)
    → reuse w.bucket.cooldown_promise w.bucket.cooldown_promise_until_ms now (goal -ℤ now) ≡ p
    → Promises now goal (await_timer w goal p).0 (await_timer w goal p).1
unfolding await_timer create_timer
await_timer-Promises w now goal none v ahead e = (goal, here, omega arith, ahead)
await_timer-Promises w now goal (some id) v ahead e =
    let (due, runs, early) = reuse_sound _ _ w.timers now goal id v.published e in
    (due, runs, early, ahead)

pub turn_bounded :
    (w : Shared) (now : ℤ) (deadline : Option ℤ)
    → IsValid w
    → Promises now (target w.bucket deadline) (turn w now deadline).0 (turn w now deadline).1
unfolding turn
turn_bounded w now deadline v =
    let goal = target w.bucket deadline in
    elim (Bool-cases (leb_ℤ (goal -ℤ now) (pos 0))) [
      | inl e ↦ rw e (remaining_le goal now e)
      | inr e ↦
          rw (e, now_plus_remaining now goal)
            (await_timer-Promises w now goal _ v (remaining_gt goal now e) refl)
    ]

without-All : (P : ℕ × ℤ → Type 0) (id : ℕ) (ts : List (ℕ × ℤ)) → All P ts → All P (without id ts)
unfolding without
without-All P id [] h = tt
without-All P id ((i, due) ∷ ts) h = elim (Bool-cases (i == id)) [
  | inl e ↦ rw e (without-All P id ts h.1)
  | inr e ↦ rw e (h.0, without-All P id ts h.1)
]

In-without :
    (i id : ℕ) (due : ℤ) (ts : List (ℕ × ℤ))
    → (i == id) ≡ false
    → In (i, due) ts
    → In (i, due) (without id ts)
unfolding without
In-without i id due [] e m = elim m [ ]
In-without i id due ((j, d) ∷ ts) e here = rw e here
In-without i id due ((j, d) ∷ ts) e (there m) = elim (Bool-cases (j == id)) [
  | inl q ↦ rw q (In-without i id due ts e m)
  | inr q ↦ rw q (there (In-without i id due ts e m))
]

retire-IsPublished :
    (b : ProviderRateState) (p : Option ℕ) (u : Option ℤ) (id : ℕ) (ts : List (ℕ × ℤ))
    → b.cooldown_promise ≡ p
    → b.cooldown_promise_until_ms ≡ u
    → IsPublished p u ts
    → IsPublished
        (retire b id).cooldown_promise
        (retire b id).cooldown_promise_until_ms
        (without id ts)
unfolding retire
retire-IsPublished b none none id ts e f h = rw (e, f) tt
retire-IsPublished b none (some u) id ts e f h = absurd h
retire-IsPublished b (some p) none id ts e f h = absurd h
retire-IsPublished b (some p) (some u) id ts e f h = elim (Bool-cases (p == id)) [
  | inl q ↦ rw (e, q) tt
  | inr q ↦ rw (e, q) (rw f (In-without p id u ts q h))
]

pub fire-IsValid : (w : Shared) (id : ℕ) → IsValid w → IsValid (fire id w)
unfolding fire
fire-IsValid w id v = record {
  published = retire-IsPublished w.bucket _ _ id w.timers refl refl v.published;
  numbered = without-All (λ t. t.0 < w.fresh) id w.timers v.numbered;
}
