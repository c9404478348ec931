-- ===== src/RepoAuth/Git/Remotes.antt =====
-- packages/opencode-repo-auth/src/git.ts: the spellings of a remote.
use lightbridge_opencode_too.Common.{
  ℕ, ◌≡◌, ◌≢◌, refl, ◌∙◌, Bool, true, false, not, ◌&&◌, Option, some, [], ◌∷◌, ◌++◌, arith, ◌==◌,
  Bool-cases, inl, inr,
}
use lightbridge_opencode_too.Common.Text.{all_of, span, Text, codes, trim, before, is_digit}
use lightbridge_opencode_too.RepoAuth.Git.{
  is_dot, strip_dot_git, host_and_path, is_host, is_user, scp_rest, first_of, with_user, scp_match,
  join_path, before_query, is_scheme, has_scheme, drop_slashes, from_url, unless_scp, of_candidate,
  normalize_remote,
}

span-append :
    (p : ℕ → Bool) (s : Text) (k : ℕ) (t : Text)
    → all_of p s ≡ true
    → p k ≡ false
    → span p (s ++ k ∷ t) ≡ (s, k ∷ t)
unfolding span all_of
span-append p [] k t h e = rw e refl
span-append p (c ∷ s) k t h e = elim (Bool-cases (p c)) [
  | inl yes_c ↦
      let rest : all_of p s ≡ true = rw yes_c at h in rw (yes_c, span-append p s k t rest e) refl
  | inr no_c ↦ let bad : false ≡ true = rw no_c at h in cc bad
]

starts_at : Text → Bool
starts_at [] = false
starts_at (c ∷ s) = c == b'@'

abbrev pub is_not_at : ℕ → Bool
is_not_at c = not (c == b'@')

span_at : (s : Text) → all_of is_not_at s ≡ true → starts_at (span is_user s).1 ≡ false
unfolding span all_of starts_at is_user
span_at [] h = refl
span_at (c ∷ s) h = elim (Bool-cases (is_user c)) [
  | inl user ↦ rw user (span_at s (ground arith))
  | inr other ↦ rw other (ground arith)
]

with_user-none :
    (x : Text × Text) (candidate : Text)
    → starts_at x.1 ≡ false
    → with_user x candidate ≡ scp_rest candidate
unfolding with_user starts_at
with_user-none ([], rest) candidate h = refl
with_user-none ((u ∷ user), []) candidate h = refl
with_user-none ((u ∷ user), (k ∷ rest)) candidate h = rw h refl

-- A host, and a path that is neither empty nor absolute, has no query and no fragment.
abbrev pub is_plain : ℕ → Bool
is_plain c = is_dot c && not (c == b'?') && not (c == b'#')

abbrev pub is_host_name : Text → Bool
is_host_name [] = false
is_host_name (c ∷ s) = all_of is_host (c ∷ s)

abbrev pub is_path : Text → Bool
is_path [] = false
is_path (c ∷ s) = not (c == b'/') && all_of is_plain (c ∷ s)

plain-dot : (s : Text) → all_of is_plain s ≡ true → all_of is_dot s ≡ true
unfolding all_of is_dot
plain-dot [] h = refl
plain-dot (c ∷ s) h = ground (arith, plain-dot s)

before_query-plain : (s : Text) → all_of is_plain s ≡ true → before_query s ≡ s
unfolding before_query before all_of
before_query-plain [] h = refl
before_query-plain (c ∷ s) h = ground (arith, before_query-plain s)

scp_rest-host :
    (host path : Text)
    → is_host_name host ≡ true
    → is_path path ≡ true
    → scp_rest (host ++ b':' ∷ path) ≡ some (host, path)
unfolding scp_rest host_and_path all_of is_host
scp_rest-host [] path h k = cc h
scp_rest-host (x ∷ host) [] h k = cc k
scp_rest-host (x ∷ host) (c ∷ path) h k =
    rw (span-append is_host (x ∷ host) b':' (c ∷ path) h refl) (ground (arith, plain-dot path))

scp_match-user :
    (user host path : Text)
    → is_host_name host ≡ true
    → is_path path ≡ true
    → all_of is_user user ≡ true
    → user ≢ []
    → scp_match (user ++ b'@' ∷ (host ++ b':' ∷ path)) ≡ some (host, path)
unfolding scp_match with_user first_of is_user
scp_match-user [] host path h k u e = absurd (e refl)
scp_match-user (c ∷ user) host path h k u e =
    rw
      (
        span-append is_user (c ∷ user) b'@' (host ++ b':' ∷ path) u refl,
        scp_rest-host host path h k,
      )
      refl

scp_match-plain :
    (host path : Text)
    → is_host_name host ≡ true
    → is_path path ≡ true
    → all_of is_not_at (host ++ b':' ∷ path) ≡ true
    → scp_match (host ++ b':' ∷ path) ≡ some (host, path)
unfolding scp_match
scp_match-plain host path h k n =
    with_user-none (span is_user (host ++ b':' ∷ path)) (host ++ b':' ∷ path)
      (span_at (host ++ b':' ∷ path) n)
    ∙ scp_rest-host host path h k

not_slash : (c : ℕ) (path : Text) → is_path (c ∷ path) ≡ true → (c == b'/') ≡ false
not_slash c path k = ground arith

scp_match_nothing : (host path : Text) → scp_match [] ≢ some (host, path)
unfolding scp_match with_user span scp_rest host_and_path
scp_match_nothing host path e = cc e

-- A URL is no scp-like remote.
of_candidate-url :
    (parse_url : Text → Option (Text × Text)) (host path rest : Text)
    → is_host_name host ≡ true
    → is_path path ≡ true
    → parse_url (codes "https://" ++ rest) ≡ some (host, b'/' ∷ path)
    → of_candidate parse_url (codes "https://" ++ rest) ≡ some (join_path host (strip_dot_git path))
unfolding of_candidate unless_scp scp_match with_user scp_rest host_and_path has_scheme span is_user
    is_host is_scheme is_digit from_url drop_slashes
of_candidate-url parse_url [] path rest h k e = cc h
of_candidate-url parse_url (x ∷ host) [] rest h k e = cc k
of_candidate-url parse_url (x ∷ host) (c ∷ path) rest h k e = rw (e, not_slash c path k) refl

of_candidate-scp :
    (parse_url : Text → Option (Text × Text)) (candidate host path : Text)
    → scp_match candidate ≡ some (host, path)
    → all_of is_plain path ≡ true
    → of_candidate parse_url candidate ≡ some (join_path host (strip_dot_git path))
unfolding of_candidate unless_scp
of_candidate-scp parse_url [] host path e h = absurd (scp_match_nothing host path e)
of_candidate-scp parse_url (c ∷ s) host path e h = rw (e, before_query-plain path h) refl

path_plain : (path : Text) → is_path path ≡ true → all_of is_plain path ≡ true
path_plain [] k = cc k
path_plain (c ∷ path) k = ground arith

-- What `normalizeRemote` makes of a remote.
abbrev pub normal_form : Text → Text → Option Text
normal_form host path = some (join_path host (strip_dot_git path))

-- One repository has one name: `user@host:path`, `host:path` and `https://…/path` are brought to the same
-- text, in which no user stands. The host holds neither a colon, a slash nor an at sign; the path has no
-- slash at its start, no query, no fragment, no at sign and no end of a line; none of the three has white
-- space around it; and the URL parser takes the last one to have that host and path.
pub normalize_remote-spellings :
    (parse_url : Text → Option (Text × Text)) (user host path rest : Text)
    → is_host_name host ≡ true
    → is_path path ≡ true
    → all_of is_user user ≡ true
    → user ≢ []
    → all_of is_not_at (host ++ b':' ∷ path) ≡ true
    → trim (user ++ b'@' ∷ (host ++ b':' ∷ path)) ≡ user ++ b'@' ∷ (host ++ b':' ∷ path)
    → trim (host ++ b':' ∷ path) ≡ host ++ b':' ∷ path
    → trim (codes "https://" ++ rest) ≡ codes "https://" ++ rest
    → parse_url (codes "https://" ++ rest) ≡ some (host, b'/' ∷ path)
    → (normalize_remote parse_url (user ++ b'@' ∷ (host ++ b':' ∷ path)) ≡ normal_form host path)
      × (normalize_remote parse_url (host ++ b':' ∷ path) ≡ normal_form host path)
      × (normalize_remote parse_url (codes "https://" ++ rest) ≡ normal_form host path)
unfolding normalize_remote
normalize_remote-spellings parse_url user host path rest h k u e n t1 t2 t3 parsed =
    let plain = path_plain path k in
    (
      rw t1 (
          of_candidate-scp parse_url (user ++ b'@' ∷ (host ++ b':' ∷ path)) host path
            (scp_match-user user host path h k u e) plain),
      rw t2 (
          of_candidate-scp parse_url (host ++ b':' ∷ path) host path
            (scp_match-plain host path h k n) plain),
      rw t3 (of_candidate-url parse_url host path rest h k parsed),
    )
