-- ===== src/Broker/InFlight/Sweep.antt =====
-- packages/opencode-browser/src/broker.ts: predicates on the commands in flight, through a rejection.
use lightbridge_opencode_too.Common.{
  ◌≡◌, ◌≢◌, refl, inl, inr, Bool, true, false, Option, none, some, [], ◌∷◌, All, Bool-cases,
  Option-cases, if◌then◌else◌,
}
use lightbridge_opencode_too.Common.Text.{Text, text_eq, text_eq_iff}
use lightbridge_opencode_too.Common.Maps.{Map, lookup, delete, Text_eq}
use lightbridge_opencode_too.Broker.{Broker, Pending, Fault}
use lightbridge_opencode_too.Broker.InFlight.{settle, settle_reject}

pub missed {ℓ} :
    {A : Type ℓ} (b : Bool) (p : A) (o : Option A)
    → (if b then some p else o) ≡ none
    → (b ≡ false) × (o ≡ none)
missed true p o e = cc e
missed false p o e = (refl, e)

differs : (j k : Text) → text_eq j k ≡ false → j ≢ k
differs j k apart same =
    let yes' : text_eq j k ≡ true = (text_eq_iff j k).1 same in cc (apart, yes')

-- `P` turns into `Q` on every entry but those under `k`.
module _ (P Q : Text × Pending → Type 0) (k : Text)
    (f : (x : Text × Pending) → x.0 ≢ k → P x → Q x) where
  delete-All : (m : Map Text Pending) → All P m → All Q (delete k m)
  unfolding delete
  delete-All [] h = tt
  delete-All ((j, p) ∷ m) h = elim (Bool-cases (text_eq j k)) [
    | inl e ↦ rw e (delete-All m h.1)
    | inr e ↦ rw e (f (j, p) (differs j k e) h.0, delete-All m h.1)
  ]

  unknown-All : (m : Map Text Pending) → lookup k m ≡ none → All P m → All Q m
  unfolding lookup
  unknown-All [] e h = tt
  unknown-All ((j, p) ∷ m) e h =
      let (apart, rest) = missed (text_eq j k) p (lookup k m) e in
      (f (j, p) (differs j k apart) h.0, unknown-All m rest h.1)

  pub settle_reject-All :
      (fault : Fault) (b : Broker) → All P b.pending → All Q (settle_reject k fault b).pending
  unfolding settle_reject settle
  settle_reject-All fault b h = elim (Option-cases (lookup k b.pending)) [
    | inl e ↦ rw e (unknown-All b.pending e h)
    | inr (p, e) ↦ rw e (delete-All b.pending h)
  ]

-- A rejection changes the entries and the tasks only.
pub settle_reject-rest :
    (k : Text) (fault : Fault) (b : Broker)
    → settle_reject k fault b ≡ record b {
      pending = (settle_reject k fault b).pending;
      tasks = (settle_reject k fault b).tasks;
    }
unfolding settle_reject settle
settle_reject-rest k fault b = elim (Option-cases (lookup k b.pending)) [
  | inl e ↦ rw e refl
  | inr (p, e) ↦ rw e refl
]
