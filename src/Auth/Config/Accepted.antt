-- ===== src/Auth/Config/Accepted.antt =====
-- packages/opencode-auth-core/src/config.ts: what a validated configuration satisfies, and that it is
-- accepted again as it is.
use lightbridge_opencode_too.Common.{◌<◌, ◌≡◌, ◌≢◌, refl, [], All}
use lightbridge_opencode_too.Common.Text.{codes}
use lightbridge_opencode_too.Common.Js.{Value, array, object, Fields, end, get}
use lightbridge_opencode_too.Auth.Config.{
  Validated, valid, ◌>>=◌, AuthServerConfig, validate_fields, validate_auth_config,
}
use lightbridge_opencode_too.Auth.Config.Texts.{
  IsTrimmed, AllSome, IsSource, HasCredential, Yields, Yields-bind, Yields-valid, Yields-of,
  ensure_string-IsTrimmed, ensure_string-trimmed, ensure_string_array-IsTrimmed,
  ensure_string_array-texts, value_of, port-IsPort, port-value, flow-name, pkce-value,
  optional_string-IsTrimmed, optional_string-value,
}
use lightbridge_opencode_too.Auth.Config.Credentials.{
  Yields-fault, validated-IsSource, source-value, secret-IsPresent, secret-value,
  check_flow-HasCredential, check_flow_lem,
}

pub record IsUsable (c : AuthServerConfig) : Type 0 where
  pub id : IsTrimmed c.id
  pub issuer : IsTrimmed c.issuer
  pub client_id : IsTrimmed c.client_id
  pub scopes : (c.scopes ≢ []) × All IsTrimmed c.scopes
  pub secret : AllSome (λ s. s ≢ []) c.client_secret
  pub port : AllSome (λ n. (0 < n) × (n < 65536)) c.redirect_port
  pub source : AllSome IsSource c.subject_token_source
  pub credential : HasCredential c.auth_flow c.client_secret c.subject_token_source
  pub audience : AllSome IsTrimmed c.token_exchange_audience

validate_fields-IsUsable : (fs : Fields) → Yields IsUsable (validate_fields fs)
unfolding validate_fields
validate_fields-IsUsable fs = Yields-bind _ _ _ (λ id e_id. Yields-bind _ _ _ (λ issuer e_issuer.
    Yields-bind _ _ _ (λ client_id e_client_id. Yields-bind _ _ _ (λ scopes e_scopes.
      Yields-bind _ _ _ (λ flow e_flow. Yields-bind _ _ _ (λ pkce e_pkce.
        Yields-bind _ _ _ (λ port e_port. Yields-bind _ _ _ (λ source e_source.
          Yields-bind _ _ _ (λ secret e_secret. Yields-bind _ _ _ (λ checked e_checked.
            Yields-bind _ _ _ (λ audience e_audience. Yields-of _ _ (record {
              id = ensure_string-IsTrimmed (get "id" fs) _ id e_id;
              issuer = ensure_string-IsTrimmed (get "issuer" fs) _ issuer e_issuer;
              client_id = ensure_string-IsTrimmed (get "clientId" fs) _ client_id e_client_id;
              scopes = ensure_string_array-IsTrimmed (get "scopes" fs) _ scopes e_scopes;
              secret = secret-IsPresent (get "clientSecret" fs) secret e_secret;
              port = port-IsPort (get "redirectPort" fs) _ port e_port;
              source = validated-IsSource (get "subjectTokenSource" fs) source e_source;
              credential = check_flow-HasCredential flow secret source checked e_checked;
              audience =
                  optional_string-IsTrimmed (get "tokenExchangeAudience" fs) _ audience e_audience;
            }))))))))))))

validate_auth_config-Yields : (v : Value) → Yields IsUsable (validate_auth_config v)
unfolding validate_auth_config
validate_auth_config-Yields (object fs) = validate_fields-IsUsable fs
validate_auth_config-Yields (array vs) = validate_fields-IsUsable end
validate_auth_config-Yields _ = Yields-fault _ _

pub bind-valid {ℓ κ} :
    {A : Type ℓ} {B : Type κ} {m : Validated A} {a : A} (f : A → Validated B) {r : Validated B}
    → m ≡ valid a
    → f a ≡ r
    → (m >>= f) ≡ r
unfolding ◌>>=◌
bind-valid f e h = rw e h

pub validate-value_of :
    (c : AuthServerConfig) → IsUsable c → validate_auth_config (value_of c) ≡ valid c
unfolding validate_auth_config validate_fields get
validate-value_of c u = bind-valid _ (ensure_string-trimmed _ c.id u.id) (
    bind-valid _ (ensure_string-trimmed _ c.issuer u.issuer) (
      bind-valid _ (ensure_string-trimmed _ c.client_id u.client_id) (
        bind-valid _ (ensure_string_array-texts _ c.scopes u.scopes.0 u.scopes.1) (
          bind-valid _ (flow-name c.auth_flow _) (
            bind-valid _ (pkce-value c.pkce (codes ".pkce")) (
              bind-valid _ (port-value _ c.redirect_port u.port) (
                bind-valid _ (source-value c.subject_token_source u.source) (
                  bind-valid _ (secret-value c.client_secret u.secret) (
                    bind-valid _
                      (check_flow_lem c.auth_flow c.client_secret c.subject_token_source
                        u.credential)
                      (bind-valid _ (optional_string-value _ c.token_exchange_audience u.audience)
                        refl))))))))))

-- A configuration that validateAuthConfig accepts is usable: its id, issuer, client id, scopes,
-- token exchange audience and the texts of its subject token source are trimmed and not blank where
-- they are given, it has scopes, its client secret is not empty where it is given, its redirect
-- port is from 1 to 65535, and a machine flow has its credential, a client secret for
-- client_credentials and a subject token source for jwt_bearer and token_exchange; and it is
-- accepted again, unchanged.
pub validate_auth_config-IsUsable :
    (v : Value) (c : AuthServerConfig)
    → validate_auth_config v ≡ valid c
    → IsUsable c × (validate_auth_config (value_of c) ≡ valid c)
validate_auth_config-IsUsable v c h =
    let u : IsUsable c =
      Yields-valid IsUsable (validate_auth_config v) c (validate_auth_config-Yields v) h in
    (u, validate-value_of c u)
