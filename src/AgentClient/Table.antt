-- ===== src/AgentClient/Table.antt =====
-- packages/opencode-browser/src/agent-client.ts: the table of the commands in flight, and how often a
-- call stands in it.
use lightbridge_opencode_too.Common.{
  ℕ, ◌+◌, ◌≤◌, ◌<◌, ◌≡◌, ◌≢◌, refl, sym, ◌∙◌, ap, Bool, true, false, Option, none, some, [], ◌∷◌,
  arith, ◌==◌, if◌then◌else◌, Bool-cases, inl, inr,
}
use lightbridge_opencode_too.Common.Text.{Text, text_eq, text_eq_iff}
use lightbridge_opencode_too.Common.Maps.{
  Map, lookup, set, delete, lookup-set, lookup-delete, Text_eq,
}
use lightbridge_opencode_too.AgentClient.{InFlight}
use lightbridge_opencode_too.AgentClient.Ids.{id_of, id_of-injective}

-- 1 where the call is the one that is counted.
abbrev pub one : ℕ → ℕ → ℕ
one call other = if other == call then 1 else 0

unfoldable pub in_flight : ℕ → Map Text InFlight → ℕ
in_flight call [] = 0
in_flight call ((id, p) ∷ m) = one call p.call + in_flight call m

-- The ids are those of the first `n` commands.
abbrev pub IsMinted : ℕ → Map Text InFlight → Type 0
IsMinted n [] = Unit
IsMinted n ((id, p) ∷ m) = ((k : ℕ) × (k ≤ n) × (id ≡ id_of k)) × IsMinted n m

abbrev pub HasDistinctIds : Map Text InFlight → Type 0
HasDistinctIds [] = Unit
HasDistinctIds ((id, p) ∷ m) = (lookup id m ≡ none) × HasDistinctIds m

differs : (i j : Text) → i ≢ j → text_eq i j ≡ false
differs i j h = elim (Bool-cases (text_eq i j)) [
  | inl e ↦ absurd (h ((text_eq_iff i j).0 e))
  | inr e ↦ e
]

pub IsMinted-lookup :
    (n k : ℕ) (m : Map Text InFlight) → n < k → IsMinted n m → lookup (id_of k) m ≡ none
unfolding lookup
IsMinted-lookup n k [] h i = refl
IsMinted-lookup n k ((id, p) ∷ m) h i =
    let apart : id ≢ id_of k =
      λ e. absurd (omega (arith, i.0.1, h, id_of-injective i.0.0 k (sym i.0.2 ∙ e))) in
    rw (differs id (id_of k) apart) (IsMinted-lookup n k m h i.1)

pub IsMinted-mono : (n k : ℕ) (m : Map Text InFlight) → n ≤ k → IsMinted n m → IsMinted k m
IsMinted-mono n k [] h i = tt
IsMinted-mono n k ((id, p) ∷ m) h i =
    ((i.0.0, omega (arith, i.0.1, h), i.0.2), IsMinted-mono n k m h i.1)

pub set-IsMinted :
    (n k : ℕ) (p : InFlight) (m : Map Text InFlight)
    → k ≤ n
    → IsMinted n m
    → IsMinted n (set (id_of k) p m)
unfolding set
set-IsMinted n k p [] h i = ((k, h, refl), tt)
set-IsMinted n k p ((id, q) ∷ m) h i = elim (Bool-cases (text_eq id (id_of k))) [
  | inl e ↦ rw e (i.0, i.1)
  | inr e ↦ rw e (i.0, set-IsMinted n k p m h i.1)
]

pub set-HasDistinctIds :
    (id : Text) (p : InFlight) (m : Map Text InFlight)
    → lookup id m ≡ none
    → HasDistinctIds m
    → HasDistinctIds (set id p m)
unfolding set lookup
set-HasDistinctIds id p [] h d = (refl, tt)
set-HasDistinctIds id p ((j, q) ∷ m) h d = elim (Bool-cases (text_eq j id)) [
  | inl e ↦ let found : some q ≡ none = rw e at h in cc found
  | inr e ↦
      let absent : lookup id m ≡ none = rw e at h in
      let apart : text_eq id j ≡ false =
        differs id j (λ f. absurd (false_true (sym e ∙ (text_eq_iff j id).1 (sym f)))) in
      rw e (lookup-set id j p m ∙ rw apart d.0, set-HasDistinctIds id p m absent d.1)
]
  where
    false_true : false ≡ true → ⊥
    false_true e = cc e

pub set-in_flight :
    (call : ℕ) (id : Text) (p : InFlight) (m : Map Text InFlight)
    → lookup id m ≡ none
    → in_flight call (set id p m) ≡ one call p.call + in_flight call m
unfolding set lookup in_flight
set-in_flight call id p [] h = refl
set-in_flight call id p ((j, q) ∷ m) h = elim (Bool-cases (text_eq j id)) [
  | inl e ↦ let found : some q ≡ none = rw e at h in cc found
  | inr e ↦
      let absent : lookup id m ≡ none = rw e at h in
      rw e (omega (arith, set-in_flight call id p m absent))
]

pub delete-IsMinted :
    (n : ℕ) (id : Text) (m : Map Text InFlight) → IsMinted n m → IsMinted n (delete id m)
unfolding delete
delete-IsMinted n id [] i = tt
delete-IsMinted n id ((j, q) ∷ m) i = elim (Bool-cases (text_eq j id)) [
  | inl e ↦ rw e (delete-IsMinted n id m i.1)
  | inr e ↦ rw e (i.0, delete-IsMinted n id m i.1)
]

pub delete-HasDistinctIds :
    (id : Text) (m : Map Text InFlight) → HasDistinctIds m → HasDistinctIds (delete id m)
unfolding delete
delete-HasDistinctIds id [] d = tt
delete-HasDistinctIds id ((j, q) ∷ m) d = elim (Bool-cases (text_eq j id)) [
  | inl e ↦ rw e (delete-HasDistinctIds id m d.1)
  | inr e ↦
      rw e (lookup-delete id j m ∙ rw d.0 (if_same (text_eq id j)), delete-HasDistinctIds id m d.1)
]
  where
    if_same : (b : Bool) → ◌≡◌ {A = Option InFlight} (if b then none else none) none
    if_same true = refl
    if_same false = refl

-- An absent entry is not deleted, and a present one only once.
delete-absent :
    (call : ℕ) (id : Text) (m : Map Text InFlight)
    → lookup id m ≡ none
    → in_flight call (delete id m) ≡ in_flight call m
unfolding delete lookup in_flight
delete-absent call id [] h = refl
delete-absent call id ((j, q) ∷ m) h = elim (Bool-cases (text_eq j id)) [
  | inl e ↦ let found : some q ≡ none = rw e at h in cc found
  | inr e ↦
      let absent : lookup id m ≡ none = rw e at h in
      rw e (omega (arith, delete-absent call id m absent))
]

pub delete-in_flight :
    (call : ℕ) (id : Text) (p : InFlight) (m : Map Text InFlight)
    → lookup id m ≡ some p
    → HasDistinctIds m
    → in_flight call m ≡ one call p.call + in_flight call (delete id m)
unfolding delete lookup in_flight
delete-in_flight call id p [] h d = cc h
delete-in_flight call id p ((j, q) ∷ m) h d = elim (Bool-cases (text_eq j id)) [
  | inl e ↦
      let found : some q ≡ some p = rw e at h in
      let same : j ≡ id = (text_eq_iff j id).0 e in
      let here : one call q.call ≡ one call p.call =
        ap (λ o. elim o [ none ↦ 0 | some (r) ↦ one call r.call ]) found in
      rw e (omega (arith, here, delete-absent call id m (rw same at d.0)))
  | inr e ↦
      let further : lookup id m ≡ some p = rw e at h in
      rw e (omega (arith, delete-in_flight call id p m further d.1))
]
