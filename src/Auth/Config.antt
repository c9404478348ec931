-- ===== src/Auth/Config.antt =====
-- packages/opencode-auth-core/src/config.ts: `validateAuthConfig`, over dynamic values. Of an error the
-- path is kept, not the message. The four endpoints are passed on as they are.
pub mod Texts
pub mod Credentials
pub mod Accepted
use lightbridge_opencode_too.Common.{
  ℕ, zero, suc, ◌+◌, Bool, true, false, ◌&&◌, ◌||◌, Option, none, some, List, [], ◌∷◌, ltb,
  if◌then◌else◌,
}
use lightbridge_opencode_too.Common.Int.{pos}
use lightbridge_opencode_too.Common.Text.{Text, codes, trim, text_eq}
use lightbridge_opencode_too.Common.Js.{
  Value, undefined, null, boolean, number, string, array, object, Items, nil, cons, Fields, end,
  finite, items, get,
}
use lightbridge_opencode_too.Auth.{
  AuthFlow, authorization_code, device_code, client_credentials, jwt_bearer, token_exchange,
}

-- The path of the value that an error names; `malformed_scope i` is `.scopes[i]`.
pub data ConfigFault : Type 0 where
  not_an_object : ConfigFault
  malformed required : (path : Text) → ConfigFault
  malformed_scope : (index : ℕ) → ConfigFault

pub data Validated {ℓ} (A : Type ℓ) : Type ℓ where
  valid : A → Validated A
  invalid : ConfigFault → Validated A

infixl 5 ◌>>=◌
unfoldable pub ◌>>=◌ {ℓ κ} :
    {A : Type ℓ} {B : Type κ} → Validated A → (A → Validated B) → Validated B
valid a >>= f = f a
invalid e >>= f = invalid e

pub data SubjectTokenSource : Type 0 where
  github_actions : (audience : Text) → SubjectTokenSource
  kubernetes_sa : (token_path : Option Text) → SubjectTokenSource
  file : (path : Text) → SubjectTokenSource
  env : (var : Text) → SubjectTokenSource

pub record AuthServerConfig : Type 0 where
  pub id : Text
  pub issuer : Text
  pub client_id : Text
  pub client_secret : Option Text
  pub scopes : List Text
  pub authorization_endpoint : Value
  pub token_endpoint : Value
  pub device_authorization_endpoint : Value
  pub jwks_uri : Value
  pub redirect_port : Option ℕ
  pub auth_flow : AuthFlow
  pub pkce : Bool
  pub subject_token_source : Option SubjectTokenSource
  pub token_exchange_audience : Option Text

-- The text, unless it is empty.
unfoldable pub nonempty_or : ConfigFault → Text → Validated Text
nonempty_or fault [] = invalid fault
nonempty_or fault (c ∷ s) = valid (c ∷ s)

unfoldable pub ensure_string : Value → ConfigFault → Validated Text
unfolding nonempty_or
ensure_string (string s) fault = nonempty_or fault (trim s)
ensure_string _ fault = invalid fault

unfoldable pub ensure_each : ℕ → List Value → Validated (List Text)
unfolding ensure_string
ensure_each index [] = valid []
ensure_each index (v ∷ vs) = do
  s ← ensure_string v (malformed_scope index)
  ss ← ensure_each (suc index) vs
  valid (s ∷ ss)

ensure_some : List Value → Text → Validated (List Text)
unfolding ensure_each
ensure_some [] path = invalid (malformed path)
ensure_some (v ∷ vs) path = ensure_each 0 (v ∷ vs)

unfoldable pub ensure_string_array : Value → Text → Validated (List Text)
unfolding ensure_some
ensure_string_array (array vs) path = ensure_some (items vs) path
ensure_string_array _ path = invalid (malformed path)

in_port_range : ℕ → Text → Validated (Option ℕ)
in_port_range n path = if ltb 0 n && ltb n 65536 then valid (some n) else invalid (malformed path)

unfoldable pub validate_redirect_port : Value → Text → Validated (Option ℕ)
unfolding in_port_range
validate_redirect_port undefined path = valid none
validate_redirect_port null path = valid none
validate_redirect_port (number (finite (pos n) zero)) path = in_port_range n path
validate_redirect_port _ path = invalid (malformed path)

unfoldable pub validate_auth_flow : Value → Text → Validated AuthFlow
validate_auth_flow undefined path = valid authorization_code
validate_auth_flow null path = valid authorization_code
validate_auth_flow (string s) path =
    if text_eq s (codes "authorization_code")
    then valid authorization_code
    else if text_eq s (codes "device_code")
    then valid device_code
    else if text_eq s (codes "client_credentials")
    then valid client_credentials
    else if text_eq s (codes "jwt_bearer")
    then valid jwt_bearer
    else if text_eq s (codes "token_exchange")
    then valid token_exchange
    else invalid (malformed path)
validate_auth_flow _ path = invalid (malformed path)

unfoldable pub validate_pkce : Value → Text → Validated Bool
validate_pkce undefined path = valid true
validate_pkce null path = valid true
validate_pkce (boolean b) path = valid b
validate_pkce _ path = invalid (malformed path)

-- Absent, or a text that is not blank, which is trimmed.
unfoldable pub optional_string : Value → Text → Validated (Option Text)
unfolding ensure_string
optional_string undefined path = valid none
optional_string null path = valid none
optional_string v path = do s ← ensure_string v (malformed path); valid (some s)

source_of_type : Text → Fields → Validated (Option SubjectTokenSource)
unfolding ensure_string optional_string get
source_of_type type fs =
    if text_eq type (codes "github_actions")
    then ensure_string (get "audience" fs) (malformed (codes ".subjectTokenSource.audience"))
      >>= (λ s. valid (some (github_actions s)))
    else if text_eq type (codes "kubernetes_sa")
    then optional_string (get "tokenPath" fs) (codes ".subjectTokenSource.tokenPath")
      >>= (λ s. valid (some (kubernetes_sa s)))
    else if text_eq type (codes "file")
    then ensure_string (get "path" fs) (malformed (codes ".subjectTokenSource.path"))
      >>= (λ s. valid (some (file s)))
    else if text_eq type (codes "env")
    then ensure_string (get "var" fs) (malformed (codes ".subjectTokenSource.var"))
      >>= (λ s. valid (some (env s)))
    else invalid (malformed (codes ".subjectTokenSource.type"))

source_of : Value → Fields → Validated (Option SubjectTokenSource)
unfolding source_of_type
source_of (string type) fs = source_of_type type fs
source_of _ fs = invalid (malformed (codes ".subjectTokenSource.type"))

unfoldable pub validate_subject_token_source : Value → Validated (Option SubjectTokenSource)
unfolding source_of get
validate_subject_token_source undefined = valid none
validate_subject_token_source null = valid none
validate_subject_token_source (object fs) = source_of (get "type" fs) fs
validate_subject_token_source _ = invalid (malformed (codes ".subjectTokenSource"))

-- A client secret is not trimmed.
unfoldable pub validate_client_secret : Value → Validated (Option Text)
validate_client_secret undefined = valid none
validate_client_secret null = valid none
validate_client_secret (string (c ∷ s)) = valid (some (c ∷ s))
validate_client_secret _ = invalid (malformed (codes ".clientSecret"))

-- What the flow needs and is not given.
unfoldable pub check_flow :
    AuthFlow → Option Text → Option SubjectTokenSource → Validated (Unit {0})
check_flow client_credentials none source = invalid (required (codes ".clientSecret"))
check_flow jwt_bearer secret none = invalid (required (codes ".subjectTokenSource"))
check_flow token_exchange secret none = invalid (required (codes ".subjectTokenSource"))
check_flow flow secret source = valid tt

unfoldable pub validate_fields : Fields → Validated AuthServerConfig
unfolding ensure_string ensure_string_array validate_auth_flow validate_pkce validate_redirect_port
    validate_subject_token_source validate_client_secret check_flow optional_string get
validate_fields fs = do
  id ← ensure_string (get "id" fs) (malformed (codes ".id"))
  issuer ← ensure_string (get "issuer" fs) (malformed (codes ".issuer"))
  client_id ← ensure_string (get "clientId" fs) (malformed (codes ".clientId"))
  scopes ← ensure_string_array (get "scopes" fs) (codes ".scopes")
  flow ← validate_auth_flow (get "authFlow" fs) (codes ".authFlow")
  pkce ← validate_pkce (get "pkce" fs) (codes ".pkce")
  port ← validate_redirect_port (get "redirectPort" fs) (codes ".redirectPort")
  source ← validate_subject_token_source (get "subjectTokenSource" fs)
  secret ← validate_client_secret (get "clientSecret" fs)
  checked ← check_flow flow secret source
  audience ← optional_string (get "tokenExchangeAudience" fs) (codes ".tokenExchangeAudience")
  valid (record {
    id = id;
    issuer = issuer;
    client_id = client_id;
    client_secret = secret;
    scopes = scopes;
    authorization_endpoint = get "authorizationEndpoint" fs;
    token_endpoint = get "tokenEndpoint" fs;
    device_authorization_endpoint = get "deviceAuthorizationEndpoint" fs;
    jwks_uri = get "jwksUri" fs;
    redirect_port = port;
    auth_flow = flow;
    pkce = pkce;
    subject_token_source = source;
    token_exchange_audience = audience;
  })

-- An array has none of the properties.
unfoldable pub validate_auth_config : Value → Validated AuthServerConfig
unfolding validate_fields
validate_auth_config (object fs) = validate_fields fs
validate_auth_config (array vs) = validate_fields end
validate_auth_config _ = invalid not_an_object

-- The texts as a JavaScript array.
abbrev pub texts : List Text → Items
texts [] = nil
texts (s ∷ ss) = cons (string s) (texts ss)

-- An absent value is `undefined`.
abbrev pub optional {ℓ} : {A : Type ℓ} → (A → Value) → Option A → Value
optional f none = undefined
optional f (some a) = f a

abbrev pub port_value : ℕ → Value
port_value n = number (finite (pos n) zero)

abbrev pub flow_name : AuthFlow → Text
flow_name authorization_code = codes "authorization_code"
flow_name device_code = codes "device_code"
flow_name client_credentials = codes "client_credentials"
flow_name jwt_bearer = codes "jwt_bearer"
flow_name token_exchange = codes "token_exchange"
