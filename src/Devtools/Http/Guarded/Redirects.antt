-- ===== src/Devtools/Http/Guarded/Redirects.antt =====
-- packages/opencode-devtools/src/groups/http.ts: where the requests of a call go.
use lightbridge_opencode_too.Common.{
  ℕ, zero, suc, ◌≤◌, ◌≡◌, refl, Bool, true, false, not, ◌&&◌, ◌||◌, Option, none, some, List, arith,
  All, length, Bool-cases, inl, inr, if◌then◌else◌,
}
use lightbridge_opencode_too.Common.Text.{Text, text_eq}
use lightbridge_opencode_too.Devtools.Http.Hosts.{is_blocked_host}
use lightbridge_opencode_too.Devtools.Http.Guarded.{
  max_redirects, Web, Url, Request, Response, Checked, allowed, refused, Outcome, answered, failed,
  Next, finished, again, is_http, location_of, is_bodiless, becomes_get, redirected, last_located,
  last_outcome, method_or_get, check_url, assert_allowed, after_check, after_location, located,
  after_response, run_next, fetch_guarded, fetch_from, http_request,
}

abbrev pub is_none {ℓ} : {A : Type ℓ} → Option A → Bool
is_none none = true
is_none (some a) = false

-- An http or https address, of a host that is not blocked unless private hosts are allowed.
abbrev pub IsAllowed : Web → Url → Type 0
IsAllowed web u =
    (is_http u.protocol
      && (web.allow_private_network || not (is_blocked_host web.to_lower u.hostname)))
    ≡ true

-- A GET or HEAD request has no body.
abbrev pub IsSound : Request → Type 0
IsSound r = (not (is_bodiless r.method) || is_none r.body) ≡ true

-- A response that is surfaced is no redirect.
abbrev pub IsFinal : Outcome → Type 0
IsFinal (answered res) = location_of res ≡ none
IsFinal (failed fault) = Unit

-- A request goes to an address that is allowed.
abbrev pub IsGuarded : Web → Request → Type 0
IsGuarded web r = IsAllowed web r.url × IsSound r

-- A call makes at most so many requests, all of them guarded, and surfaces no redirect.
pub record IsBounded (web : Web) (n : ℕ) (x : List Request × Outcome) : Type 0 where
  pub guarded : All (IsGuarded web) x.0
  pub few : length x.0 ≤ n
  pub final : IsFinal x.1

-- What is next: the end of the call, or a request.
abbrev IsGood : Web → Next → Type 0
IsGood web (finished outcome) = IsFinal outcome
IsGood web (again r) = IsGuarded web r

-- A checked address that is not refused.
abbrev IsPassed : Checked → Type 0
IsPassed (allowed u) = Unit
IsPassed (refused fault) = ⊥

redirected-IsSound :
    (status : ℕ) (r : Request) (u : Url) → IsSound r → IsSound (redirected status r u)
unfolding redirected is_bodiless text_eq
redirected-IsSound status r u h = elim (Bool-cases (becomes_get status r.method)) [
  | inl e ↦ rw e refl
  | inr e ↦ rw e h
]

redirected-url : (status : ℕ) (r : Request) (u : Url) → (redirected status r u).url ≡ u
unfolding redirected
redirected-url status r u = elim (Bool-cases (becomes_get status r.method)) [
  | inl e ↦ rw e refl
  | inr e ↦ rw e refl
]

last_located-IsFinal :
    (o : Option Text) (res : Response) → location_of res ≡ o → IsFinal (last_located o res)
unfolding last_located
last_located-IsFinal none res e = e
last_located-IsFinal (some location) res e = tt

last_outcome-IsFinal : (o : Option Response) → IsFinal (last_outcome o)
unfolding last_outcome
last_outcome-IsFinal none = tt
last_outcome-IsFinal (some res) = last_located-IsFinal (location_of res) res refl

sound_body : (b : Bool) (body : Option Text) → (not b || is_none (if b then none else body)) ≡ true
sound_body true body = refl
sound_body false body = refl

module _ (web : Web)
    (reparse : (location : Text) (base u : Url)
      → web.resolve location base ≡ some u
      → web.parse_url u.href ≡ some u) where
  check_url-IsAllowed : (u : Url) → IsPassed (check_url web (some u)) → IsAllowed web u
  unfolding check_url
  check_url-IsAllowed u h = ground arith

  after_check-IsGood :
      (c : Checked) (status : ℕ) (r : Request) (next : Url)
      → IsSound r
      → (IsPassed c → IsAllowed web next)
      → IsGood web (after_check web c status r next)
  unfolding after_check
  after_check-IsGood (refused fault) status r next h k = tt
  after_check-IsGood (allowed u) status r next h k =
      (rw (redirected-url status r next) (k tt), redirected-IsSound status r next h)

  after_location-IsGood :
      (o : Option Url) (status : ℕ) (r : Request)
      → IsSound r
      → ((next : Url) → o ≡ some next → web.parse_url next.href ≡ some next)
      → IsGood web (after_location web o status r)
  unfolding after_location assert_allowed
  after_location-IsGood none status r h k = tt
  after_location-IsGood (some next) status r h k =
      rw (k next refl)
        (after_check-IsGood (check_url web (some next)) status r next h (check_url-IsAllowed next))

  located-IsGood :
      (o : Option Text) (res : Response) (r : Request)
      → location_of res ≡ o
      → IsSound r
      → IsGood web (located web o res r)
  unfolding located
  located-IsGood none res r e h = e
  located-IsGood (some location) res r e h =
      after_location-IsGood (web.resolve location r.url) res.status r h (reparse location r.url)

  after_response-IsGood :
      (o : Option Response) (r : Request) → IsSound r → IsGood web (after_response web o r)
  unfolding after_response
  after_response-IsGood none r h = tt
  after_response-IsGood (some res) r h = located-IsGood (location_of res) res r refl h

  run_next-IsBounded :
      (n : ℕ) (go : Request → List Request × Outcome) (x : Next)
      → ((r : Request) → IsGuarded web r → IsBounded web n (go r))
      → IsGood web x
      → IsBounded web n (run_next web go x)
  unfolding run_next
  run_next-IsBounded n go (finished outcome) f h = record {
    guarded = tt;
    few = omega arith;
    final = h;
  }
  run_next-IsBounded n go (again r) f h = f r h

  fetch_guarded-IsBounded :
      (n : ℕ) (r : Request) → IsGuarded web r → IsBounded web (suc n) (fetch_guarded web n r)
  unfolding fetch_guarded
  fetch_guarded-IsBounded zero r h = record {
    guarded = (h, tt);
    few = omega arith;
    final = last_outcome-IsFinal (web.fetch zero r);
  }
  fetch_guarded-IsBounded (suc n) r h =
      let rest =
        run_next-IsBounded (suc n) (λ q. fetch_guarded web n q)
          (after_response web (web.fetch (suc n) r) r) (fetch_guarded-IsBounded n)
          (after_response-IsGood (web.fetch (suc n) r) r h.1) in
      record { guarded = (h, rest.guarded); few = omega (arith, rest.few); final = rest.final }

  fetch_from-IsBounded :
      (c : Checked) (method : Text) (body : Option Text)
      → (not (is_bodiless method) || is_none body) ≡ true
      → ((u : Url) → c ≡ allowed u → IsAllowed web u)
      → IsBounded web 6 (fetch_from web c method body)
  unfolding fetch_from
  fetch_from-IsBounded (refused fault) method body h k = record {
    guarded = tt;
    few = omega arith;
    final = tt;
  }
  fetch_from-IsBounded (allowed u) method body h k =
      fetch_guarded-IsBounded max_redirects (record { url = u; method = method; body = body })
        (k u refl, h)

  check_url-passes : (o : Option Url) (u : Url) → check_url web o ≡ allowed u → IsAllowed web u
  unfolding check_url
  check_url-passes none u h = cc h
  check_url-passes (some v) u h = ground arith

  -- Whatever redirects a server answers with, the tool `http_request` makes at most six requests, each
  -- to an http or https address whose host is not blocked, unless private hosts are allowed; no GET or
  -- HEAD request has a body; and the response that it surfaces is no redirect. The text of a redirect's
  -- address must parse to that address again.
  pub http_request-IsBounded :
      (raw_url : Text) (method raw_body : Option Text)
      → IsBounded web 6 (http_request web raw_url method raw_body)
  unfolding http_request assert_allowed
  http_request-IsBounded raw_url method raw_body =
      let verb = method_or_get web.to_upper method in
      fetch_from-IsBounded (check_url web (web.parse_url raw_url)) verb
        (if is_bodiless verb then none else raw_body) (sound_body (is_bodiless verb) raw_body)
        (check_url-passes (web.parse_url raw_url))
