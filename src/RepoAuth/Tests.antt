-- ===== src/RepoAuth/Tests.antt =====
-- Runs of the models of git remotes, and the theorem at a concrete one.
use lightbridge_opencode_too.Common.{◌≡◌, refl, true, Option, none, some, [], ◌∷◌, ◌++◌}
use lightbridge_opencode_too.Common.Js.{
  undefined, string, array, object, nil, cons, Fields, end, field,
}
use lightbridge_opencode_too.Auth.{device_code}
use lightbridge_opencode_too.Auth.Config.{
  valid, ◌>>=◌, validate_subject_token_source, check_flow, validate_auth_config,
}
use lightbridge_opencode_too.Auth.Config.Texts.{IsTrimmed}
use lightbridge_opencode_too.RepoAuth.Config.{
  RepoAuthConfig, opted_in, as_string_array, parse_repo_auth_options, input_fields,
  has_oauth2_conflict,
}
use lightbridge_opencode_too.RepoAuth.Config.Accepted.{
  configured, remaining_checks, parse_repo_auth_options-IsValid,
}
use lightbridge_opencode_too.Common.Text.{all_of, span, Text, codes, trim, text_eq, before}
use lightbridge_opencode_too.RepoAuth.Git.{
  normalize_remote, is_host, is_user, is_dot, strip_dot_git, join_path,
}
use lightbridge_opencode_too.RepoAuth.Git.Remotes.{normal_form, normalize_remote-spellings}

-- A URL parser that knows one address.
abbrev parse_one : Text → Option (Text × Text)
parse_one s = some (codes "h.io", codes "/o/r.git")

named : normal_form (codes "h.io") (codes "o/r.git") ≡ some (codes "h.io/o/r")
unfolding strip_dot_git text_eq join_path
named = refl

-- A password that is left where the host is missing.
leaked : normalize_remote (λ s. none) (codes "al:pw@:p") ≡ some (codes "al/pw@:p")
unfolding normalize_remote trim span is_user is_host is_dot all_of strip_dot_git text_eq before
    join_path
leaked = refl

normalize_remote-spellings_example :
    (normalize_remote parse_one (codes "git" ++ b'@' ∷ (codes "h.io" ++ b':' ∷ codes "o/r.git"))
      ≡ normal_form (codes "h.io") (codes "o/r.git"))
    × (normalize_remote parse_one (codes "h.io" ++ b':' ∷ codes "o/r.git")
        ≡ normal_form (codes "h.io") (codes "o/r.git"))
    × (normalize_remote parse_one (codes "https://" ++ codes "h.io/o/r.git")
        ≡ normal_form (codes "h.io") (codes "o/r.git"))
unfolding all_of is_host is_user is_dot trim
normalize_remote-spellings_example =
    normalize_remote-spellings parse_one (codes "git") (codes "h.io") (codes "o/r.git")
      (codes "h.io/o/r.git") refl refl refl (λ e. cc e) refl refl refl refl refl

abbrev block : Fields
block = field "projectId" (string (codes " p1 ")) (
    field "issuer" (string (codes "https://i")) (
      field "clientId" (string (codes "c")) (
        field "scopes" (string (codes "openid, offline_access"))
          (field "authFlow" (string (codes "device_code")) end))))

abbrev opting_in : Fields
opting_in = field "meta" (object (field "repoAuth" (object block) end)) end

abbrev block_config : RepoAuthConfig
block_config = record {
  project_id = codes "p1";
  auth = record {
    issuer = codes "https://i";
    client_id = codes "c";
    client_secret = none;
    scopes = codes "openid" ∷ codes "offline_access" ∷ [];
    authorization_endpoint = none;
    token_endpoint = none;
    device_authorization_endpoint = none;
    jwks_uri = none;
    redirect_port = none;
    auth_flow = some device_code;
    pkce = none;
    subject_token_source = undefined;
  };
}

block_parsed : parse_repo_auth_options (some opting_in) ≡ valid (opted_in block_config)
unfolding parse_repo_auth_options trim text_eq ◌>>=◌
block_parsed = refl

block_accepted : remaining_checks block_config.auth ≡ valid (configured block_config.auth none)
unfolding validate_subject_token_source check_flow ◌>>=◌
block_accepted = refl

-- A comma at the end, and white space between the scopes.
scopes_split :
    as_string_array (string (codes "a , b c,")) ≡ some (codes "a" ∷ codes "b" ∷ codes "c" ∷ [])
unfolding as_string_array trim
scopes_split = refl

conflict_by_server :
    has_oauth2_conflict
      (field "pluginConfig"
        (object (
          field "oauth2ModelSync"
            (object (
              field "servers"
                (array (cons (object (field "id" (string (codes "s1")) end)) nil))
                end))
            end))
        end)
      none
      (some (codes "s1"))
    ≡ true
unfolding has_oauth2_conflict trim text_eq
conflict_by_server = refl

parse_repo_auth_options-IsValid_example :
    IsTrimmed block_config.project_id
    × (validate_auth_config (object (input_fields block_config.auth))
        ≡ remaining_checks block_config.auth)
parse_repo_auth_options-IsValid_example =
    parse_repo_auth_options-IsValid (some opting_in) block_config block_parsed
