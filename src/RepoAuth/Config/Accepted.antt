-- ===== src/RepoAuth/Config/Accepted.antt =====
-- packages/opencode-repo-auth/src/config.ts with packages/opencode-auth-core/src/config.ts: what is
-- opted in, as RepoAuthPlugin hands it to validateAuthConfig.
use lightbridge_opencode_too.Common.{
  ◌≡◌, ◌≢◌, refl, Bool, true, Option, none, some, List, [], or_else, All, inl, inr, Option-cases,
}
use lightbridge_opencode_too.Common.Text.{Text, codes, trim}
use lightbridge_opencode_too.Common.Js.{Value, undefined, boolean, string, object, Fields, get}
use lightbridge_opencode_too.Auth.{AuthFlow, authorization_code}
use lightbridge_opencode_too.Auth.Config.{
  Validated, valid, invalid, ◌>>=◌, optional, flow_name, SubjectTokenSource, AuthServerConfig,
  validate_auth_flow, validate_pkce, optional_string, validate_subject_token_source, check_flow,
  validate_fields, validate_auth_config,
}
use lightbridge_opencode_too.Auth.Config.Texts.{
  IsTrimmed, Yields, Yields-bind, Yields-valid, Yields-of, ensure_string-trimmed,
  ensure_string_array-texts, port-value, flow-name,
}
use lightbridge_opencode_too.Auth.Config.Credentials.{Yields-fault, secret-value}
use lightbridge_opencode_too.Auth.Config.Accepted.{bind-valid}
use lightbridge_opencode_too.RepoAuth.Config.{
  AuthInput, RepoAuthConfig, not_opted_in, missing_project_id, opted_in, as_record, as_string,
  as_string_array, read_block, read_required, read_project, read_raw, read_meta,
  parse_repo_auth_options, input_fields,
}
use lightbridge_opencode_too.RepoAuth.Config.Reading.{
  IsReady, IsReadyResult, as_string-IsTrimmed, as_string_array-IsTrimmed, as_client_secret-Yields,
  as_redirect_port-Yields,
}

read_block-IsReady :
    (raw : Fields) (project_id issuer client_id : Text) (scopes : List Text)
    → IsTrimmed project_id
    → IsTrimmed issuer
    → IsTrimmed client_id
    → (scopes ≢ []) × All IsTrimmed scopes
    → Yields IsReadyResult (read_block raw project_id issuer client_id scopes)
unfolding read_block
read_block-IsReady raw project_id issuer client_id scopes p i c s =
    Yields-bind _ _ _ (λ secret e_secret. Yields-bind _ _ _ (λ port e_port.
      Yields-bind _ _ _ (λ flow e_flow. Yields-bind _ _ _ (λ pkce e_pkce.
        Yields-of IsReadyResult _ (record {
          project_id = p;
          issuer = i;
          client_id = c;
          scopes = s;
          secret =
              Yields-valid _ _ secret (as_client_secret-Yields (get "clientSecret" raw) _) e_secret;
          port = Yields-valid _ _ port (as_redirect_port-Yields (get "redirectPort" raw) _) e_port;
        })))))

read_required-IsReady :
    (raw : Fields) (project_id : Text) (issuer client_id scopes : Value)
    → IsTrimmed project_id
    → Yields IsReadyResult (
        read_required raw project_id
          (as_string issuer)
          (as_string client_id)
          (as_string_array scopes))
unfolding read_required
read_required-IsReady raw project_id issuer client_id scopes p =
    elim (Option-cases (as_string issuer)) [
      | inl e ↦ rw (e, read_required) (Yields-fault _ _)
      | inr i ↦ elim (Option-cases (as_string client_id)) [
        | inl e ↦ rw (i.1, e, read_required) (Yields-fault _ _)
        | inr c ↦ elim (Option-cases (as_string_array scopes)) [
          | inl e ↦ rw (i.1, c.1, e, read_required) (Yields-fault _ _)
          | inr s ↦
              rw (i.1, c.1, s.1, read_required)
                (read_block-IsReady raw project_id i.0 c.0 s.0 p
                  (as_string-IsTrimmed issuer i.0 i.1) (as_string-IsTrimmed client_id c.0 c.1)
                  (as_string_array-IsTrimmed scopes s.0 s.1))
        ]
      ]
    ]

read_project-IsReady :
    (id : Value) (raw : Fields) → Yields IsReadyResult (read_project (as_string id) raw)
unfolding read_project
read_project-IsReady id raw = elim (Option-cases (as_string id)) [
  | inl e ↦ rw (e, read_project) (Yields-of IsReadyResult missing_project_id tt)
  | inr p ↦
      rw (p.1, read_project)
        (read_required-IsReady raw p.0 (get "issuer" raw) (get "clientId" raw) (get "scopes" raw)
          (as_string-IsTrimmed id p.0 p.1))
]

read_raw-IsReady : (o : Option Fields) → Yields IsReadyResult (read_raw o)
unfolding read_raw
read_raw-IsReady none = Yields-of IsReadyResult not_opted_in tt
read_raw-IsReady (some raw) = read_project-IsReady (get "projectId" raw) raw

read_meta-IsReady : (o : Option Fields) → Yields IsReadyResult (read_meta o)
unfolding read_meta
read_meta-IsReady none = Yields-of IsReadyResult not_opted_in tt
read_meta-IsReady (some meta) = read_raw-IsReady (as_record (get "repoAuth" meta))

parse_repo_auth_options-IsReady :
    (o : Option Fields) → Yields IsReadyResult (parse_repo_auth_options o)
unfolding parse_repo_auth_options
parse_repo_auth_options-IsReady none = Yields-of IsReadyResult not_opted_in tt
parse_repo_auth_options-IsReady (some options) = read_meta-IsReady (as_record (get "meta" options))

-- The configuration that the plugin works with.
abbrev pub configured : AuthInput → Option SubjectTokenSource → AuthServerConfig
configured a source = record {
  id = codes "repoAuth";
  issuer = a.issuer;
  client_id = a.client_id;
  client_secret = a.client_secret;
  scopes = a.scopes;
  authorization_endpoint = optional string a.authorization_endpoint;
  token_endpoint = optional string a.token_endpoint;
  device_authorization_endpoint = optional string a.device_authorization_endpoint;
  jwks_uri = optional string a.jwks_uri;
  redirect_port = a.redirect_port;
  auth_flow = or_else a.auth_flow authorization_code;
  pkce = or_else a.pkce true;
  subject_token_source = source;
  token_exchange_audience = none;
}

flow_or_default :
    (flow : Option AuthFlow) (path : Text)
    → validate_auth_flow (optional (λ f. string (flow_name f)) flow) path
      ≡ valid (or_else flow authorization_code)
flow_or_default none path = unfold validate_auth_flow in refl
flow_or_default (some flow) path = flow-name flow path

pkce_or_default :
    (b : Option Bool) (path : Text)
    → validate_pkce (optional boolean b) path ≡ valid (or_else b true)
unfolding validate_pkce
pkce_or_default none path = refl
pkce_or_default (some b) path = refl

bind_ext {ℓ κ} :
    {A : Type ℓ} {B : Type κ} (m : Validated A) (f g : A → Validated B)
    → ((a : A) → f a ≡ g a)
    → (m >>= f) ≡ (m >>= g)
unfolding ◌>>=◌
bind_ext (valid a) f g h = h a
bind_ext (invalid e) f g h = refl

id-IsTrimmed : IsTrimmed (codes "repoAuth")
id-IsTrimmed = (λ e. cc e, unfold trim in refl)

no_audience : optional_string undefined (codes ".tokenExchangeAudience") ≡ valid none
no_audience = unfold optional_string in refl

-- What validateAuthConfig answers on the input that a block gives.
abbrev pub remaining_checks : AuthInput → Validated AuthServerConfig
remaining_checks a = do
  source ← validate_subject_token_source a.subject_token_source
  checked ← check_flow (or_else a.auth_flow authorization_code) a.client_secret source
  valid (configured a source)

validate_ready :
    (c : RepoAuthConfig)
    → IsReady c
    → validate_auth_config (object (input_fields c.auth)) ≡ remaining_checks c.auth
unfolding validate_auth_config validate_fields input_fields get
validate_ready c r = bind-valid _ (ensure_string-trimmed _ (codes "repoAuth") id-IsTrimmed) (
    bind-valid _ (ensure_string-trimmed _ c.auth.issuer r.issuer) (
      bind-valid _ (ensure_string-trimmed _ c.auth.client_id r.client_id) (
        bind-valid _ (ensure_string_array-texts _ c.auth.scopes r.scopes.0 r.scopes.1) (
          bind-valid _ (flow_or_default c.auth.auth_flow _) (
            bind-valid _ (pkce_or_default c.auth.pkce (codes ".pkce")) (
              bind-valid _ (port-value _ c.auth.redirect_port r.port) (
                bind_ext _ _ _ (λ source.
                  bind-valid _ (secret-value c.auth.client_secret r.secret)
                    (bind_ext _ _ _ (λ checked. bind-valid _ no_audience refl))))))))))

-- A block that parseRepoAuthOptions opts in has a trimmed project id that is not blank, and
-- validateAuthConfig finds no fault in what the block gives it but two: a malformed subject token
-- source, and a machine flow without its credential. Otherwise it gives the values of the block,
-- with the flow authorization_code and PKCE where the block does not say.
pub parse_repo_auth_options-IsValid :
    (options : Option Fields) (c : RepoAuthConfig)
    → parse_repo_auth_options options ≡ valid (opted_in c)
    → IsTrimmed c.project_id
      × (validate_auth_config (object (input_fields c.auth)) ≡ remaining_checks c.auth)
parse_repo_auth_options-IsValid options c h =
    let r : IsReady c =
      Yields-valid IsReadyResult (parse_repo_auth_options options) (opted_in c)
        (parse_repo_auth_options-IsReady options) h in
    (r.project_id, validate_ready c r)
