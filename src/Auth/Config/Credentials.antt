-- ===== src/Auth/Config/Credentials.antt =====
-- packages/opencode-auth-core/src/config.ts: the credentials of the machine flows.
use mathlib.Core.Path.{subst}
use lightbridge_opencode_too.Common.{
  ◌≡◌, ◌≢◌, refl, Bool, true, false, Option, none, some, [], ◌∷◌, if◌then◌else◌,
}
use lightbridge_opencode_too.Common.Text.{Text, codes, text_eq}
use lightbridge_opencode_too.Common.Js.{
  Value, undefined, null, boolean, number, string, array, object, Fields, get,
}
use lightbridge_opencode_too.Auth.{
  AuthFlow, authorization_code, device_code, client_credentials, jwt_bearer, token_exchange,
}
use lightbridge_opencode_too.Auth.Config.{
  ConfigFault, Validated, valid, optional, invalid, ◌>>=◌, SubjectTokenSource, github_actions,
  kubernetes_sa, file, env, ensure_string, source_of_type, source_of, validate_subject_token_source,
  validate_client_secret, check_flow,
}
use lightbridge_opencode_too.Auth.Config.Texts.{
  IsTrimmed, AllSome, IsSource, HasCredential, Yields, Yields-bind, Yields-valid, Yields-of,
  ensure_string-IsTrimmed, ensure_string-trimmed, source_fields, optional_string-IsTrimmed,
  optional_string-value,
}

pub Yields-if {ℓ} :
    {A : Type ℓ} (P : A → Type 0) (b : Bool) (x y : Validated A)
    → Yields P x
    → Yields P y
    → Yields P (if b then x else y)
Yields-if P true x y h k = h
Yields-if P false x y h k = k

pub Yields-fault {ℓ} :
    {A : Type ℓ} (P : A → Type 0) (fault : ConfigFault) → Yields P (invalid fault)
unfolding Yields
Yields-fault P fault = tt

of_string-IsSource :
    (v : Value) (fault : ConfigFault) (make : Text → SubjectTokenSource)
    → ((s : Text) → IsTrimmed s → IsSource (make s))
    → Yields (AllSome IsSource) (ensure_string v fault >>= (λ s. valid (some (make s))))
of_string-IsSource v fault make h =
    Yields-bind _ _ _
      (λ s first. Yields-of _ (some (make s)) (h s (ensure_string-IsTrimmed v fault s first)))

source_of_type-IsSource :
    (type : Text) (fs : Fields) → Yields (AllSome IsSource) (source_of_type type fs)
unfolding source_of_type
source_of_type-IsSource type fs =
    Yields-if _ (text_eq type (codes "github_actions")) _ _
      (of_string-IsSource (get "audience" fs) _ github_actions (λ s h. h))
      (Yields-if _ (text_eq type (codes "kubernetes_sa")) _ _
        (Yields-bind _ _ _ (λ o path.
          Yields-of _ (some (kubernetes_sa o))
            (optional_string-IsTrimmed (get "tokenPath" fs) _ o path)))
        (Yields-if _ (text_eq type (codes "file")) _ _
          (of_string-IsSource (get "path" fs) _ file (λ s h. h))
          (Yields-if _ (text_eq type (codes "env")) _ _
            (of_string-IsSource (get "var" fs) _ env (λ s h. h)) (Yields-fault _ _))))

source_of-IsSource : (type : Value) (fs : Fields) → Yields (AllSome IsSource) (source_of type fs)
unfolding source_of
source_of-IsSource (string type) fs = source_of_type-IsSource type fs
source_of-IsSource _ fs = Yields-fault _ _

validate_subject_token_source-Yields :
    (v : Value) → Yields (AllSome IsSource) (validate_subject_token_source v)
unfolding validate_subject_token_source
validate_subject_token_source-Yields (object fs) = source_of-IsSource (get "type" fs) fs
validate_subject_token_source-Yields undefined = Yields-of _ none tt
validate_subject_token_source-Yields null = Yields-of _ none tt
validate_subject_token_source-Yields _ = Yields-fault _ _

pub validated-IsSource :
    (v : Value) (o : Option SubjectTokenSource)
    → validate_subject_token_source v ≡ valid o
    → AllSome IsSource o
validated-IsSource v o h =
    Yields-valid (AllSome IsSource) (validate_subject_token_source v) o
      (validate_subject_token_source-Yields v) h

pub source-value :
    (o : Option SubjectTokenSource)
    → AllSome IsSource o
    → validate_subject_token_source (optional (λ s. object (source_fields s)) o) ≡ valid o
unfolding validate_subject_token_source source_of source_of_type text_eq get ◌>>=◌
source-value none h = refl
source-value (some (github_actions audience)) h = rw (ensure_string-trimmed _ audience h) refl
source-value (some (kubernetes_sa path)) h = rw (optional_string-value _ path h) refl
source-value (some (file path)) h = rw (ensure_string-trimmed _ path h) refl
source-value (some (env var)) h = rw (ensure_string-trimmed _ var h) refl

pub secret-IsPresent :
    (v : Value) (o : Option Text) → validate_client_secret v ≡ valid o → AllSome (λ s. s ≢ []) o
unfolding validate_client_secret
secret-IsPresent undefined o h = let e : none ≡ o = cc h in subst (AllSome (λ s. s ≢ [])) e tt
secret-IsPresent null o h = let e : none ≡ o = cc h in subst (AllSome (λ s. s ≢ [])) e tt
secret-IsPresent (string (c ∷ s)) o h =
    let e : some (c ∷ s) ≡ o = cc h in subst (AllSome (λ t. t ≢ [])) e (λ k. cc k)
secret-IsPresent (string []) o h = cc h
secret-IsPresent (boolean b) o h = cc h
secret-IsPresent (number n) o h = cc h
secret-IsPresent (array vs) o h = cc h
secret-IsPresent (object fs) o h = cc h

pub secret-value :
    (o : Option Text)
    → AllSome (λ s. s ≢ []) o
    → validate_client_secret (optional string o) ≡ valid o
unfolding validate_client_secret
secret-value none h = refl
secret-value (some []) h = absurd (h refl)
secret-value (some (c ∷ s)) h = refl

pub check_flow-HasCredential :
    (flow : AuthFlow) (secret : Option Text) (source : Option SubjectTokenSource) (u : Unit {0})
    → check_flow flow secret source ≡ valid u
    → HasCredential flow secret source
unfolding check_flow
check_flow-HasCredential authorization_code secret source u h = tt
check_flow-HasCredential device_code secret source u h = tt
check_flow-HasCredential client_credentials none source u h = cc h
check_flow-HasCredential client_credentials (some s) source u h = λ e. cc e
check_flow-HasCredential jwt_bearer secret none u h = cc h
check_flow-HasCredential jwt_bearer secret (some s) u h = λ e. cc e
check_flow-HasCredential token_exchange secret none u h = cc h
check_flow-HasCredential token_exchange secret (some s) u h = λ e. cc e

pub check_flow_lem :
    (flow : AuthFlow) (secret : Option Text) (source : Option SubjectTokenSource)
    → HasCredential flow secret source
    → check_flow flow secret source ≡ valid tt
unfolding check_flow
check_flow_lem authorization_code secret source h = refl
check_flow_lem device_code secret source h = refl
check_flow_lem client_credentials none source h = absurd (h refl)
check_flow_lem client_credentials (some s) source h = refl
check_flow_lem jwt_bearer secret none h = absurd (h refl)
check_flow_lem jwt_bearer secret (some s) h = refl
check_flow_lem token_exchange secret none h = absurd (h refl)
check_flow_lem token_exchange secret (some s) h = refl
