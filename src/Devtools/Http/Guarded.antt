-- ===== src/Devtools/Http/Guarded.antt =====
-- packages/opencode-devtools/src/groups/http.ts: `assertAllowed`, `fetchGuarded` and the requests of
-- the two tools.
--
-- `URL` and `fetch` are parameters: `parse_url` is `new URL(s)` and `resolve` `new URL(s, base)`, none
-- where they throw; `fetch` answers by the number of the redirects that are left, none where it
-- throws. The headers, which
-- all requests of a call share, are left out.
pub mod Redirects
use lightbridge_opencode_too.Common.{
  ℕ, zero, suc, Bool, true, false, not, ◌&&◌, ◌||◌, Option, none, some, List, [], ◌∷◌, leb, ltb,
  ◌==◌, if◌then◌else◌, or_else,
}
use lightbridge_opencode_too.Common.Text.{Text, codes, text_eq}
use lightbridge_opencode_too.Devtools.Http.Hosts.{is_blocked_host}

abbrev pub max_redirects : ℕ
max_redirects = 5

pub record Url : Type 0 where
  pub protocol : Text
  pub hostname : Text
  pub href : Text

pub record Request : Type 0 where
  pub url : Url
  pub method : Text
  pub body : Option Text

pub record Response : Type 0 where
  pub status : ℕ
  pub location : Option Text

pub data Fault : Type 0 where
  invalid_url unsupported_protocol private_host too_many_redirects network : Fault

pub data Checked : Type 0 where
  allowed : Url → Checked
  refused : Fault → Checked

pub data Outcome : Type 0 where
  answered : Response → Outcome
  failed : Fault → Outcome

pub data Next : Type 0 where
  finished : Outcome → Next
  again : Request → Next

unfoldable pub is_http : Text → Bool
is_http protocol = text_eq protocol (codes "http:") || text_eq protocol (codes "https:")

-- A location that is empty is none.
nonempty : Option Text → Option Text
nonempty (some (c ∷ s)) = some (c ∷ s)
nonempty _ = none

unfoldable pub location_of : Response → Option Text
unfolding nonempty
location_of res = if leb 300 res.status && ltb res.status 400 then nonempty res.location else none

unfoldable pub is_bodiless : Text → Bool
is_bodiless method = text_eq method (codes "GET") || text_eq method (codes "HEAD")

-- 303 becomes GET, and so does 301 or 302 of a method that has a body.
becomes_get : ℕ → Text → Bool
unfolding is_bodiless
becomes_get status method =
    status == 303 || ((status == 301 || status == 302) && not (is_bodiless method))

-- The request to the next hop.
redirected : ℕ → Request → Url → Request
unfolding becomes_get
redirected status req next =
    if becomes_get status req.method
    then record { url = next; method = codes "GET"; body = none }
    else record req { url = next }

-- After the last hop that is allowed.
last_located : Option Text → Response → Outcome
last_located none res = answered res
last_located (some location) res = failed too_many_redirects

last_outcome : Option Response → Outcome
unfolding location_of last_located
last_outcome none = failed network
last_outcome (some res) = last_located (location_of res) res

-- What a call meets: the functions of the language and of the runtime, the network, and the option
-- `http.allowPrivateNetwork`.
pub record Web : Type 0 where
  pub to_lower : Text → Text
  pub to_upper : Text → Text
  pub parse_url : Text → Option Url
  pub resolve : Text → Url → Option Url
  pub fetch : ℕ → Request → Option Response
  pub allow_private_network : Bool

-- The method of the arguments, GET by default.
method_or_get : (Text → Text) → Option Text → Text
method_or_get to_upper none = codes "GET"
method_or_get to_upper (some method) = to_upper method

module _ (web : Web) where
  check_url : Option Url → Checked
  unfolding is_http
  check_url none = refused invalid_url
  check_url (some url) =
      if not (is_http url.protocol)
      then refused unsupported_protocol
      else if not web.allow_private_network && is_blocked_host web.to_lower url.hostname
      then refused private_host
      else allowed url

  unfoldable pub assert_allowed : Text → Checked
  unfolding check_url
  assert_allowed raw_url = check_url (web.parse_url raw_url)

  -- `assertAllowed(next.href)`, whose result is not used.
  after_check : Checked → ℕ → Request → Url → Next
  unfolding redirected
  after_check (refused fault) status req next = finished (failed fault)
  after_check (allowed url) status req next = again (redirected status req next)

  after_location : Option Url → ℕ → Request → Next
  unfolding after_check assert_allowed
  after_location none status req = finished (failed invalid_url)
  after_location (some next) status req = after_check (assert_allowed next.href) status req next

  located : Option Text → Response → Request → Next
  unfolding after_location
  located none res req = finished (answered res)
  located (some location) res req = after_location (web.resolve location req.url) res.status req

  after_response : Option Response → Request → Next
  unfolding located location_of
  after_response none req = finished (failed network)
  after_response (some res) req = located (location_of res) res req

  run_next : (Request → List Request × Outcome) → Next → List Request × Outcome
  run_next rest (finished outcome) = ([], outcome)
  run_next rest (again req) = rest req

  -- The loop of `fetchGuarded`, on the number of the redirects that are left: the requests that it
  -- makes, and how it ends.
  unfoldable pub fetch_guarded : ℕ → Request → List Request × Outcome
  unfolding last_outcome run_next after_response
  fetch_guarded zero req = (req ∷ [], last_outcome (web.fetch zero req))
  fetch_guarded (suc n) req =
      let (requests, outcome) =
        run_next (λ r. fetch_guarded n r) (after_response (web.fetch (suc n) req) req) in
      (req ∷ requests, outcome)

  fetch_from : Checked → Text → Option Text → List Request × Outcome
  unfolding fetch_guarded
  fetch_from (refused fault) method body = ([], failed fault)
  fetch_from (allowed url) method body =
      fetch_guarded max_redirects (record { url = url; method = method; body = body })

  -- The handler of `http_request`, up to the response.
  unfoldable pub http_request : Text → Option Text → Option Text → List Request × Outcome
  unfolding fetch_from assert_allowed is_bodiless method_or_get
  http_request raw_url method raw_body =
      let verb = method_or_get web.to_upper method in
      fetch_from (assert_allowed raw_url) verb (if is_bodiless verb then none else raw_body)

  -- The handler of `http_graphql`, up to the response; the body is the query and its variables.
  unfoldable pub http_graphql : Text → Text → List Request × Outcome
  unfolding fetch_from assert_allowed
  http_graphql raw_url body = fetch_from (assert_allowed raw_url) (codes "POST") (some body)
