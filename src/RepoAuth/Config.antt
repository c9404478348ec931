-- ===== src/RepoAuth/Config.antt =====
-- packages/opencode-repo-auth/src/config.ts: the `meta.repoAuth` block of a provider, and the test for
-- providers that opencode-oauth2 manages, over dynamic values. Of an error the path is kept, not the
-- message. The parts of a split text between adjoining separators are empty, and filtered out.
pub mod Reading
pub mod Accepted
use lightbridge_opencode_too.Common.{
  ℕ, zero, Bool, true, false, ◌&&◌, ◌||◌, Option, none, some, List, [], ◌∷◌, ltb, ◌==◌,
  if◌then◌else◌, or_else,
}
use lightbridge_opencode_too.Common.Int.{pos}
use lightbridge_opencode_too.Common.Text.{
  some_nonempty, push_front, Text, codes, trim, text_eq, is_space,
}
use lightbridge_opencode_too.Common.Js.{
  Value, undefined, null, boolean, number, string, array, object, Fields, end, field, finite, items,
  get,
}
use lightbridge_opencode_too.Auth.{
  AuthFlow, authorization_code, device_code, client_credentials, jwt_bearer, token_exchange,
}
use lightbridge_opencode_too.Auth.Config.{
  malformed, required, Validated, valid, invalid, ◌>>=◌, optional, port_value, flow_name, texts,
}

-- AuthServerConfigInput, as this package fills it in; `id` is always `repoAuth`.
pub record AuthInput : Type 0 where
  pub issuer : Text
  pub client_id : Text
  pub client_secret : Option Text
  pub scopes : List Text
  pub authorization_endpoint : Option Text
  pub token_endpoint : Option Text
  pub device_authorization_endpoint : Option Text
  pub jwks_uri : Option Text
  pub redirect_port : Option ℕ
  pub auth_flow : Option AuthFlow
  pub pkce : Option Bool
  pub subject_token_source : Value

pub record RepoAuthConfig : Type 0 where
  pub project_id : Text
  pub auth : AuthInput

pub data RepoAuthParseResult : Type 0 where
  not_opted_in missing_project_id : RepoAuthParseResult
  opted_in : RepoAuthConfig → RepoAuthParseResult

unfoldable pub as_record : Value → Option Fields
as_record (object fs) = some fs
as_record _ = none

unfoldable pub as_string : Value → Option Text
unfolding some_nonempty
as_string (string s) = some_nonempty (trim s)
as_string _ = none

-- The entries that are texts and not blank, trimmed.
unfoldable pub strings_of : List Value → List Text
unfolding as_string
strings_of [] = []
strings_of (v ∷ vs) = elim (as_string v) [ none ↦ strings_of vs | some s ↦ s ∷ strings_of vs ]

is_separator : ℕ → Bool
is_separator c = is_space c || c == b','

-- `s.split(/[\s,]+/g)`, but for empty parts.
split_words : Text → List Text
unfolding push_front is_separator
split_words [] = [] ∷ []
split_words (c ∷ s) =
    let rest = split_words s in if is_separator c then [] ∷ rest else push_front c rest

-- `.map(trim).filter(nonempty)`.
unfoldable pub trim_words : List Text → List Text
unfolding some_nonempty
trim_words [] = []
trim_words (w ∷ ws) = elim (some_nonempty (trim w)) [
  | none ↦ trim_words ws
  | some s ↦ s ∷ trim_words ws
]

nonempty_list : List Text → Option (List Text)
nonempty_list [] = none
nonempty_list (s ∷ ss) = some (s ∷ ss)

unfoldable pub as_string_array : Value → Option (List Text)
unfolding nonempty_list strings_of split_words trim_words
as_string_array (array vs) = nonempty_list (strings_of (items vs))
as_string_array (string s) = nonempty_list (trim_words (split_words s))
as_string_array _ = none

unfoldable pub as_auth_flow : Value → Text → Validated (Option AuthFlow)
as_auth_flow undefined path = valid none
as_auth_flow null path = valid none
as_auth_flow (string s) path =
    if text_eq s (codes "authorization_code")
    then valid (some authorization_code)
    else if text_eq s (codes "device_code")
    then valid (some device_code)
    else if text_eq s (codes "client_credentials")
    then valid (some client_credentials)
    else if text_eq s (codes "jwt_bearer")
    then valid (some jwt_bearer)
    else if text_eq s (codes "token_exchange")
    then valid (some token_exchange)
    else invalid (malformed path)
as_auth_flow _ path = invalid (malformed path)

unfoldable pub as_client_secret : Value → Text → Validated (Option Text)
as_client_secret undefined path = valid none
as_client_secret null path = valid none
as_client_secret (string (c ∷ s)) path = valid (some (c ∷ s))
as_client_secret _ path = invalid (malformed path)

port_in_range : ℕ → Text → Validated (Option ℕ)
port_in_range n path = if ltb 0 n && ltb n 65536 then valid (some n) else invalid (malformed path)

unfoldable pub as_redirect_port : Value → Text → Validated (Option ℕ)
unfolding port_in_range
as_redirect_port undefined path = valid none
as_redirect_port null path = valid none
as_redirect_port (number (finite (pos n) zero)) path = port_in_range n path
as_redirect_port _ path = invalid (malformed path)

unfoldable pub as_boolean : Value → Text → Validated (Option Bool)
as_boolean undefined path = valid none
as_boolean null path = valid none
as_boolean (boolean b) path = valid (some b)
as_boolean _ path = invalid (malformed path)

-- The object literal, whose fields are read in their order.
unfoldable pub read_block : Fields → Text → Text → Text → List Text → Validated RepoAuthParseResult
unfolding as_client_secret as_redirect_port as_auth_flow as_boolean as_string get
read_block raw project_id issuer client_id scopes = do
  secret ← as_client_secret (get "clientSecret" raw) (codes ".clientSecret")
  port ← as_redirect_port (get "redirectPort" raw) (codes ".redirectPort")
  flow ← as_auth_flow (get "authFlow" raw) (codes ".authFlow")
  pkce ← as_boolean (get "pkce" raw) (codes ".pkce")
  valid (
      opted_in (record {
        project_id = project_id;
        auth = record {
          issuer = issuer;
          client_id = client_id;
          client_secret = secret;
          scopes = scopes;
          authorization_endpoint = as_string (get "authorizationEndpoint" raw);
          token_endpoint = as_string (get "tokenEndpoint" raw);
          device_authorization_endpoint = as_string (get "deviceAuthorizationEndpoint" raw);
          jwks_uri = as_string (get "jwksUri" raw);
          redirect_port = port;
          auth_flow = flow;
          pkce = pkce;
          subject_token_source = get "subjectTokenSource" raw;
        };
      }))

read_required :
    Fields → Text → Option Text → Option Text → Option (List Text) → Validated RepoAuthParseResult
unfolding read_block
read_required raw project_id (some issuer) (some client_id) (some scopes) =
    read_block raw project_id issuer client_id scopes
read_required raw project_id issuer client_id scopes = invalid (required [])

read_project : Option Text → Fields → Validated RepoAuthParseResult
unfolding read_required as_string as_string_array get
read_project none raw = valid missing_project_id
read_project (some project_id) raw =
    read_required raw project_id (as_string (get "issuer" raw)) (as_string (get "clientId" raw))
      (as_string_array (get "scopes" raw))

read_raw : Option Fields → Validated RepoAuthParseResult
unfolding read_project as_string get
read_raw none = valid not_opted_in
read_raw (some raw) = read_project (as_string (get "projectId" raw)) raw

read_meta : Option Fields → Validated RepoAuthParseResult
unfolding read_raw as_record get
read_meta none = valid not_opted_in
read_meta (some meta) = read_raw (as_record (get "repoAuth" meta))

unfoldable pub parse_repo_auth_options : Option Fields → Validated RepoAuthParseResult
unfolding read_meta as_record get
parse_repo_auth_options none = valid not_opted_in
parse_repo_auth_options (some options) = read_meta (as_record (get "meta" options))

-- The input of validateAuthConfig.
unfoldable pub input_fields : AuthInput → Fields
input_fields a = field "id" (string (codes "repoAuth")) (
    field "issuer" (string a.issuer) (
      field "clientId" (string a.client_id) (
        field "clientSecret" (optional string a.client_secret) (
          field "scopes" (array (texts a.scopes)) (
            field "authorizationEndpoint" (optional string a.authorization_endpoint) (
              field "tokenEndpoint" (optional string a.token_endpoint) (
                field "deviceAuthorizationEndpoint"
                  (optional string a.device_authorization_endpoint)
                  (field "jwksUri" (optional string a.jwks_uri) (
                    field "redirectPort" (optional port_value a.redirect_port) (
                      field "authFlow" (optional (λ f. string (flow_name f)) a.auth_flow) (
                        field "pkce" (optional boolean a.pkce)
                          (field "subjectTokenSource" a.subject_token_source end))))))))))))

servers_of : Option Fields → List Value
unfolding get
servers_of none = []
servers_of (some sync) = elim (get "servers" sync) [ array vs ↦ items vs | _ ↦ [] ]

id_of_entry : Option Fields → Option Text
unfolding as_string get
id_of_entry none = none
id_of_entry (some entry) = as_string (get "id" entry)

ids_of : List Value → List Text
unfolding id_of_entry as_record
ids_of [] = []
ids_of (v ∷ vs) = elim (id_of_entry (as_record v)) [ none ↦ ids_of vs | some id ↦ id ∷ ids_of vs ]

sync_of : Option Fields → Option Fields
unfolding as_record get
sync_of none = none
sync_of (some plugin_config) = as_record (get "oauth2ModelSync" plugin_config)

-- The set of ids as the list of its members, in the order of the servers.
unfoldable pub oauth2_managed_provider_ids : Fields → List Text
unfolding servers_of ids_of sync_of as_record get
oauth2_managed_provider_ids config =
    ids_of (servers_of (sync_of (as_record (get "pluginConfig" config))))

includes : Text → List Text → Bool
includes id [] = false
includes id (j ∷ ids) = text_eq id j || includes id ids

is_record : Option Fields → Bool
is_record none = false
is_record (some fs) = true

options_conflict : Option Fields → Bool
unfolding as_record is_record get
options_conflict none = false
options_conflict (some options) =
    is_record (as_record (get "oauth2" options))
    || is_record (as_record (get "oauth2ModelSync" options))

id_conflict : Fields → Option Text → Bool
unfolding oauth2_managed_provider_ids includes
id_conflict config (some (c ∷ id)) = includes (c ∷ id) (oauth2_managed_provider_ids config)
id_conflict config _ = false

unfoldable pub has_oauth2_conflict : Fields → Option Fields → Option Text → Bool
unfolding options_conflict id_conflict
has_oauth2_conflict config options provider_id =
    options_conflict options || id_conflict config provider_id
