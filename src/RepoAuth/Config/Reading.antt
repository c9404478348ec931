-- ===== src/RepoAuth/Config/Reading.antt =====
-- packages/opencode-repo-auth/src/config.ts: the values of single fields of a block, as they are read.
use mathlib.Core.Path.{subst}
use lightbridge_opencode_too.Common.{
  ℕ, zero, ◌<◌, ◌≡◌, ◌≢◌, sym, ◌∙◌, ap, ◌&&◌, none, some, List, [], ◌∷◌, arith, ltb, All, inl, inr,
  Bool-cases, Option-cases,
}
use lightbridge_opencode_too.Common.Int.{pos}
use lightbridge_opencode_too.Common.Text.{some_nonempty, Text, trim}
use lightbridge_opencode_too.Common.Trim.{trim-trim}
use lightbridge_opencode_too.Common.Js.{
  Value, undefined, null, boolean, number, string, array, object, finite, items,
}
use lightbridge_opencode_too.Auth.Config.Texts.{IsTrimmed, AllSome, Yields, Yields-of}
use lightbridge_opencode_too.Auth.Config.Credentials.{Yields-fault}
use lightbridge_opencode_too.RepoAuth.Config.{
  RepoAuthConfig, RepoAuthParseResult, not_opted_in, missing_project_id, opted_in, as_string,
  strings_of, trim_words, split_words, nonempty_list, as_string_array, as_client_secret,
  port_in_range, as_redirect_port,
}

-- The fields that the reading of a block has checked.
pub record IsReady (c : RepoAuthConfig) : Type 0 where
  pub project_id : IsTrimmed c.project_id
  pub issuer : IsTrimmed c.auth.issuer
  pub client_id : IsTrimmed c.auth.client_id
  pub scopes : (c.auth.scopes ≢ []) × All IsTrimmed c.auth.scopes
  pub secret : AllSome (λ s. s ≢ []) c.auth.client_secret
  pub port : AllSome (λ n. (0 < n) × (n < 65536)) c.auth.redirect_port

abbrev pub IsReadyResult : RepoAuthParseResult → Type 0
IsReadyResult not_opted_in = Unit
IsReadyResult missing_project_id = Unit
IsReadyResult (opted_in c) = IsReady c

some_nonempty-IsTrimmed : (s t : Text) → some_nonempty (trim s) ≡ some t → IsTrimmed t
some_nonempty-IsTrimmed s t h =
    let (same, present) = inverted (trim s) h in (present, ap trim (sym same) ∙ trim-trim s ∙ same)
  where
    inverted : (u : Text) → some_nonempty u ≡ some t → (u ≡ t) × (t ≢ [])
    inverted [] k = unfold some_nonempty in cc k
    inverted (c ∷ u) k =
        let same : c ∷ u ≡ t = unfold some_nonempty in cc k in (same, λ e. cc (same ∙ e))

pub as_string-IsTrimmed : (v : Value) (t : Text) → as_string v ≡ some t → IsTrimmed t
unfolding as_string
as_string-IsTrimmed (string s) t h = some_nonempty-IsTrimmed s t h
as_string-IsTrimmed undefined t h = cc h
as_string-IsTrimmed null t h = cc h
as_string-IsTrimmed (boolean b) t h = cc h
as_string-IsTrimmed (number n) t h = cc h
as_string-IsTrimmed (array vs) t h = cc h
as_string-IsTrimmed (object fs) t h = cc h

strings_of-IsTrimmed : (vs : List Value) → All IsTrimmed (strings_of vs)
unfolding strings_of
strings_of-IsTrimmed [] = tt
strings_of-IsTrimmed (v ∷ vs) = elim (Option-cases (as_string v)) [
  | inl e ↦ rw (e, strings_of) (strings_of-IsTrimmed vs)
  | inr found ↦
      rw (found.1, strings_of) (as_string-IsTrimmed v found.0 found.1, strings_of-IsTrimmed vs)
]

trim_words-IsTrimmed : (ws : List Text) → All IsTrimmed (trim_words ws)
unfolding trim_words
trim_words-IsTrimmed [] = tt
trim_words-IsTrimmed (w ∷ ws) = elim (Option-cases (some_nonempty (trim w))) [
  | inl e ↦ rw (e, trim_words) (trim_words-IsTrimmed ws)
  | inr found ↦
      rw (found.1, trim_words) (some_nonempty-IsTrimmed w found.0 found.1, trim_words-IsTrimmed ws)
]

nonempty_list_lem :
    (ss ts : List Text)
    → All IsTrimmed ss
    → nonempty_list ss ≡ some ts
    → (ts ≢ []) × All IsTrimmed ts
unfolding nonempty_list
nonempty_list_lem [] ts h e = cc e
nonempty_list_lem (s ∷ ss) ts h e =
    let same : s ∷ ss ≡ ts = cc e in (λ k. cc (same ∙ k), subst (All IsTrimmed) same h)

pub as_string_array-IsTrimmed :
    (v : Value) (ts : List Text) → as_string_array v ≡ some ts → (ts ≢ []) × All IsTrimmed ts
unfolding as_string_array
as_string_array-IsTrimmed (array vs) ts h =
    nonempty_list_lem (strings_of (items vs)) ts (strings_of-IsTrimmed (items vs)) h
as_string_array-IsTrimmed (string s) ts h =
    nonempty_list_lem (trim_words (split_words s)) ts (trim_words-IsTrimmed (split_words s)) h
as_string_array-IsTrimmed undefined ts h = cc h
as_string_array-IsTrimmed null ts h = cc h
as_string_array-IsTrimmed (boolean b) ts h = cc h
as_string_array-IsTrimmed (number n) ts h = cc h
as_string_array-IsTrimmed (object fs) ts h = cc h

pub as_client_secret-Yields :
    (v : Value) (path : Text) → Yields (AllSome (λ s. s ≢ [])) (as_client_secret v path)
unfolding as_client_secret
as_client_secret-Yields undefined path = Yields-of _ none tt
as_client_secret-Yields null path = Yields-of _ none tt
as_client_secret-Yields (string (c ∷ s)) path = Yields-of _ (some (c ∷ s)) (λ e. cc e)
as_client_secret-Yields _ path = Yields-fault _ _

port_in_range-Yields :
    (n : ℕ) (path : Text) → Yields (AllSome (λ k. (0 < k) × (k < 65536))) (port_in_range n path)
unfolding port_in_range
port_in_range-Yields n path = elim (Bool-cases (ltb 0 n && ltb n 65536)) [
  | inl e ↦ rw e (Yields-of _ (some n) (ground (arith, e), ground (arith, e)))
  | inr e ↦ rw e (Yields-fault _ _)
]

pub as_redirect_port-Yields :
    (v : Value) (path : Text)
    → Yields (AllSome (λ k. (0 < k) × (k < 65536))) (as_redirect_port v path)
unfolding as_redirect_port
as_redirect_port-Yields undefined path = Yields-of _ none tt
as_redirect_port-Yields null path = Yields-of _ none tt
as_redirect_port-Yields (number (finite (pos n) zero)) path = port_in_range-Yields n path
as_redirect_port-Yields _ path = Yields-fault _ _
