-- ===== src/Auth/Config/Texts.antt =====
-- packages/opencode-auth-core/src/config.ts: the values of single fields, as they are accepted.
use mathlib.Core.Path.{subst}
use lightbridge_opencode_too.Common.{
  ℕ, zero, suc, ◌<◌, ◌≡◌, ◌≢◌, refl, sym, ◌∙◌, ap, Bool, Option, none, some, List, [], ◌∷◌, arith,
  All,
}
use lightbridge_opencode_too.Common.Int.{pos, negsuc}
use lightbridge_opencode_too.Common.Text.{Text, codes, trim, text_eq}
use lightbridge_opencode_too.Common.Trim.{trim-trim}
use lightbridge_opencode_too.Common.Js.{
  Value, undefined, null, boolean, number, string, array, object, Fields, end, field, finite,
  not_finite, items,
}
use lightbridge_opencode_too.Auth.{
  AuthFlow, authorization_code, device_code, client_credentials, jwt_bearer, token_exchange,
}
use lightbridge_opencode_too.Auth.Config.{
  ConfigFault, malformed, malformed_scope, Validated, valid, texts, optional, port_value, flow_name,
  invalid, ◌>>=◌, SubjectTokenSource, github_actions, kubernetes_sa, file, env, AuthServerConfig,
  nonempty_or, ensure_string, ensure_each, ensure_some, ensure_string_array, in_port_range,
  validate_redirect_port, validate_auth_flow, validate_pkce, optional_string,
}

-- A text that is not blank and has no white space around it.
abbrev pub IsTrimmed : Text → Type 0
IsTrimmed s = (s ≢ []) × (trim s ≡ s)

abbrev pub AllSome {ℓ} : {A : Type ℓ} → (A → Type 0) → Option A → Type 0
AllSome P none = Unit
AllSome P (some a) = P a

abbrev pub IsSource : SubjectTokenSource → Type 0
IsSource (github_actions audience) = IsTrimmed audience
IsSource (kubernetes_sa path) = AllSome IsTrimmed path
IsSource (file path) = IsTrimmed path
IsSource (env var) = IsTrimmed var

-- A machine flow has its credential.
abbrev pub HasCredential : AuthFlow → Option Text → Option SubjectTokenSource → Type 0
HasCredential authorization_code secret source = Unit
HasCredential device_code secret source = Unit
HasCredential client_credentials secret source = secret ≢ none
HasCredential jwt_bearer secret source = source ≢ none
HasCredential token_exchange secret source = source ≢ none

-- A value that is validated satisfies `P`.
unfoldable pub Yields {ℓ} : {A : Type ℓ} → (A → Type 0) → Validated A → Type 0
Yields P (valid a) = P a
Yields P (invalid e) = Unit

pub Yields-bind {ℓ κ} :
    {A : Type ℓ} {B : Type κ} (P : B → Type 0) (m : Validated A) (f : A → Validated B)
    → ((a : A) → m ≡ valid a → Yields P (f a))
    → Yields P (m >>= f)
unfolding Yields ◌>>=◌
Yields-bind P (valid a) f h = h a refl
Yields-bind P (invalid e) f h = tt

pub Yields-valid {ℓ} :
    {A : Type ℓ} (P : A → Type 0) (m : Validated A) (a : A) → Yields P m → m ≡ valid a → P a
unfolding Yields
Yields-valid P (valid b) a h e = let same : b ≡ a = cc e in subst P same h
Yields-valid P (invalid f) a h e = cc e

pub Yields-of {ℓ} : {A : Type ℓ} (P : A → Type 0) (a : A) → P a → Yields P (valid a)
unfolding Yields
Yields-of P a h = h

nonempty_or-valid :
    (fault : ConfigFault) (s t : Text) → nonempty_or fault s ≡ valid t → (s ≡ t) × (t ≢ [])
unfolding nonempty_or
nonempty_or-valid fault [] t h = cc h
nonempty_or-valid fault (c ∷ s) t h = let same : c ∷ s ≡ t = cc h in (same, λ e. cc (same ∙ e))

pub ensure_string-IsTrimmed :
    (v : Value) (fault : ConfigFault) (t : Text) → ensure_string v fault ≡ valid t → IsTrimmed t
unfolding ensure_string
ensure_string-IsTrimmed (string s) fault t h =
    let (same, nonempty) = nonempty_or-valid fault (trim s) t h in
    (nonempty, ap trim (sym same) ∙ trim-trim s ∙ same)
ensure_string-IsTrimmed undefined fault t h = cc h
ensure_string-IsTrimmed null fault t h = cc h
ensure_string-IsTrimmed (boolean b) fault t h = cc h
ensure_string-IsTrimmed (number n) fault t h = cc h
ensure_string-IsTrimmed (array vs) fault t h = cc h
ensure_string-IsTrimmed (object fs) fault t h = cc h

nonempty_or_lem : (fault : ConfigFault) (s : Text) → s ≢ [] → nonempty_or fault s ≡ valid s
unfolding nonempty_or
nonempty_or_lem fault [] h = absurd (h refl)
nonempty_or_lem fault (c ∷ s) h = refl

pub ensure_string-trimmed :
    (fault : ConfigFault) (s : Text) → IsTrimmed s → ensure_string (string s) fault ≡ valid s
unfolding ensure_string
ensure_string-trimmed fault s h = rw h.1 (nonempty_or_lem fault s h.0)

ensure_each-IsTrimmed : (i : ℕ) (vs : List Value) → Yields (All IsTrimmed) (ensure_each i vs)
unfolding ensure_each
ensure_each-IsTrimmed i [] = Yields-of _ [] tt
ensure_each-IsTrimmed i (v ∷ vs) = Yields-bind _ _ _ (λ s first. Yields-bind _ _ _ (λ ss rest.
    Yields-of _ (s ∷ ss) (
      ensure_string-IsTrimmed v (malformed_scope i) s first,
      Yields-valid (All IsTrimmed) (ensure_each (suc i) vs) ss (ensure_each-IsTrimmed (suc i) vs)
          rest,
    )))

ensure_each-texts :
    (i : ℕ) (ss : List Text) → All IsTrimmed ss → ensure_each i (items (texts ss)) ≡ valid ss
unfolding ensure_each ◌>>=◌
ensure_each-texts i [] h = refl
ensure_each-texts i (s ∷ ss) h =
    rw (ensure_string-trimmed (malformed_scope i) s h.0, ensure_each-texts (suc i) ss h.1) refl

cons-ne-nil : (s : Text) (ss : List Text) → s ∷ ss ≢ []
cons-ne-nil s ss e = cc e

ensure_each-nonempty :
    (v : Value) (vs : List Value) → Yields (λ ss. ss ≢ []) (ensure_each 0 (v ∷ vs))
unfolding ensure_each
ensure_each-nonempty v vs =
    Yields-bind _ _ _
      (λ s first. Yields-bind _ _ _ (λ ss rest. Yields-of _ (s ∷ ss) (cons-ne-nil s ss)))

ensure_some-IsTrimmed :
    (vs : List Value) (path : Text) (ss : List Text)
    → ensure_some vs path ≡ valid ss
    → (ss ≢ []) × All IsTrimmed ss
unfolding ensure_some
ensure_some-IsTrimmed [] path ss h = cc h
ensure_some-IsTrimmed (v ∷ vs) path ss h = (
  Yields-valid (λ ts. ts ≢ []) (ensure_each 0 (v ∷ vs)) ss (ensure_each-nonempty v vs) h,
  Yields-valid (All IsTrimmed) (ensure_each 0 (v ∷ vs)) ss (ensure_each-IsTrimmed 0 (v ∷ vs)) h,
)

pub ensure_string_array-IsTrimmed :
    (v : Value) (path : Text) (ss : List Text)
    → ensure_string_array v path ≡ valid ss
    → (ss ≢ []) × All IsTrimmed ss
unfolding ensure_string_array
ensure_string_array-IsTrimmed (array vs) path ss h = ensure_some-IsTrimmed (items vs) path ss h
ensure_string_array-IsTrimmed undefined path ss h = cc h
ensure_string_array-IsTrimmed null path ss h = cc h
ensure_string_array-IsTrimmed (boolean b) path ss h = cc h
ensure_string_array-IsTrimmed (number n) path ss h = cc h
ensure_string_array-IsTrimmed (string s) path ss h = cc h
ensure_string_array-IsTrimmed (object fs) path ss h = cc h

pub ensure_string_array-texts :
    (path : Text) (ss : List Text)
    → ss ≢ []
    → All IsTrimmed ss
    → ensure_string_array (array (texts ss)) path ≡ valid ss
unfolding ensure_string_array ensure_some
ensure_string_array-texts path [] h k = absurd (h refl)
ensure_string_array-texts path (s ∷ ss) h k = ensure_each-texts 0 (s ∷ ss) k

abbrev pub source_fields : SubjectTokenSource → Fields
source_fields (github_actions audience) =
    field "type" (string (codes "github_actions")) (field "audience" (string audience) end)
source_fields (kubernetes_sa path) =
    field "type" (string (codes "kubernetes_sa")) (field "tokenPath" (optional string path) end)
source_fields (file path) = field "type" (string (codes "file")) (field "path" (string path) end)
source_fields (env var) = field "type" (string (codes "env")) (field "var" (string var) end)

-- The configuration as a JavaScript object.
abbrev pub value_of : AuthServerConfig → Value
value_of c = object (
    field "id" (string c.id) (
      field "issuer" (string c.issuer) (
        field "clientId" (string c.client_id) (
          field "clientSecret" (optional string c.client_secret) (
            field "scopes" (array (texts c.scopes)) (
              field "authorizationEndpoint" c.authorization_endpoint (
                field "tokenEndpoint" c.token_endpoint (
                  field "deviceAuthorizationEndpoint" c.device_authorization_endpoint (
                    field "jwksUri" c.jwks_uri (
                      field "redirectPort" (optional port_value c.redirect_port) (
                        field "authFlow" (string (flow_name c.auth_flow)) (
                          field "pkce" (boolean c.pkce) (
                            field "subjectTokenSource"
                              (optional (λ s. object (source_fields s)) c.subject_token_source)
                              (field "tokenExchangeAudience"
                                (optional string c.token_exchange_audience) end))))))))))))))

in_port_range-IsPort :
    (n : ℕ) (path : Text) (p : Option ℕ)
    → in_port_range n path ≡ valid p
    → AllSome (λ k. (0 < k) × (k < 65536)) p
unfolding in_port_range
in_port_range-IsPort n path none h = ground (arith, h)
in_port_range-IsPort n path (some k) h = (ground (arith, h), ground (arith, h))

pub port-IsPort :
    (v : Value) (path : Text) (p : Option ℕ)
    → validate_redirect_port v path ≡ valid p
    → AllSome (λ k. (0 < k) × (k < 65536)) p
unfolding validate_redirect_port
port-IsPort undefined path p h =
    let e : none ≡ p = cc h in subst (AllSome (λ k. (0 < k) × (k < 65536))) e tt
port-IsPort null path p h =
    let e : none ≡ p = cc h in subst (AllSome (λ k. (0 < k) × (k < 65536))) e tt
port-IsPort (number (finite (pos n) zero)) path p h = in_port_range-IsPort n path p h
port-IsPort (number (finite (pos n) (suc r))) path p h = cc h
port-IsPort (number (finite (negsuc n) r)) path p h = cc h
port-IsPort (number not_finite) path p h = cc h
port-IsPort (boolean b) path p h = cc h
port-IsPort (array vs) path p h = cc h
port-IsPort (string s) path p h = cc h
port-IsPort (object fs) path p h = cc h

pub port-value :
    (path : Text) (p : Option ℕ)
    → AllSome (λ k. (0 < k) × (k < 65536)) p
    → validate_redirect_port (optional port_value p) path ≡ valid p
unfolding validate_redirect_port in_port_range
port-value path none h = refl
port-value path (some n) h = ground (arith, h.0, h.1)

pub flow-name :
    (flow : AuthFlow) (path : Text) → validate_auth_flow (string (flow_name flow)) path ≡ valid flow
unfolding validate_auth_flow text_eq
flow-name authorization_code path = refl
flow-name device_code path = refl
flow-name client_credentials path = refl
flow-name jwt_bearer path = refl
flow-name token_exchange path = refl

pub pkce-value : (b : Bool) (path : Text) → validate_pkce (boolean b) path ≡ valid b
unfolding validate_pkce
pkce-value b path = refl

some_string-IsTrimmed :
    (v : Value) (path : Text)
    → Yields (AllSome IsTrimmed) (ensure_string v (malformed path) >>= (λ s. valid (some s)))
some_string-IsTrimmed v path =
    Yields-bind _ _ _
      (λ s first. Yields-of _ (some s) (ensure_string-IsTrimmed v (malformed path) s first))

optional_string-Yields :
    (v : Value) (path : Text) → Yields (AllSome IsTrimmed) (optional_string v path)
unfolding optional_string
optional_string-Yields undefined path = Yields-of _ none tt
optional_string-Yields null path = Yields-of _ none tt
optional_string-Yields v path = some_string-IsTrimmed v path

pub optional_string-IsTrimmed :
    (v : Value) (path : Text) (o : Option Text)
    → optional_string v path ≡ valid o
    → AllSome IsTrimmed o
optional_string-IsTrimmed v path o h =
    Yields-valid (AllSome IsTrimmed) (optional_string v path) o (optional_string-Yields v path) h

pub optional_string-value :
    (path : Text) (o : Option Text)
    → AllSome IsTrimmed o
    → optional_string (optional string o) path ≡ valid o
unfolding optional_string ◌>>=◌
optional_string-value path none h = refl
optional_string-value path (some s) h = rw (ensure_string-trimmed (malformed path) s h) refl
