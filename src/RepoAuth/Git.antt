-- ===== src/RepoAuth/Git.antt =====
-- packages/opencode-repo-auth/src/git.ts: `normalizeRemote`, over code units. The URL parser is a
-- parameter: the host name and the path of an address, none where it throws.
pub mod Remotes
use lightbridge_opencode_too.Common.{
  ℕ, Bool, true, false, not, ◌&&◌, ◌||◌, Option, none, some, List, [], ◌∷◌, ◌++◌, leb, ◌==◌,
  if◌then◌else◌, or_else,
}
use lightbridge_opencode_too.Common.Text.{
  all_of, span, Text, codes, text_eq, trim, trim_start, is_space, is_digit, before,
}
use lightbridge_opencode_too.Common.Maps.{Map, lookup, set, Text_eq}

-- `.` of a regular expression.
unfoldable pub is_dot : ℕ → Bool
is_dot c = not (c == 10 || c == 13 || c == 0x2028 || c == 0x2029)

-- `endsWith`, where what precedes the suffix is dropped with it.
strip_suffix : Text → Text → Text
strip_suffix suffix [] = []
strip_suffix suffix (c ∷ s) =
    let rest = strip_suffix suffix s in if text_eq (c ∷ s) suffix then [] else c ∷ rest

-- A character before what is left of the rest; a slash at the end goes.
keep_unless_slash : ℕ → Text → Text
keep_unless_slash c (d ∷ t) = c ∷ d ∷ t
keep_unless_slash c [] = if c == b'/' then [] else c ∷ []

-- The loops that drop trailing slashes.
strip_slashes : Text → Text
unfolding keep_unless_slash
strip_slashes [] = []
strip_slashes (c ∷ s) = keep_unless_slash c (strip_slashes s)

unfoldable pub strip_dot_git : Text → Text
unfolding strip_slashes strip_suffix
strip_dot_git path = strip_slashes (strip_suffix (codes ".git") (strip_slashes path))

-- `([^:/]+):([^/].*)`, by the split of the text behind its host.
host_and_path : Text × Text → Option (Text × Text)
unfolding all_of is_dot
host_and_path ((h ∷ host), (k ∷ c ∷ path)) =
    if k == b':' && not (c == b'/') && all_of is_dot path then some (h ∷ host, c ∷ path) else none
host_and_path _ = none

unfoldable pub is_host : ℕ → Bool
is_host c = not (c == b':') && not (c == b'/')

unfoldable pub is_user : ℕ → Bool
is_user c = not (c == b'@') && not (c == b'/')

scp_rest : Text → Option (Text × Text)
unfolding host_and_path span is_host
scp_rest s = host_and_path (span is_host s)

first_of {ℓ} : {A : Type ℓ} → Option A → Option A → Option A
first_of (some a) other = some a
first_of none other = other

-- With a user, and without one where that fails.
with_user : Text × Text → Text → Option (Text × Text)
unfolding scp_rest first_of
with_user ((u ∷ user), (k ∷ rest)) candidate =
    if k == b'@' then first_of (scp_rest rest) (scp_rest candidate) else scp_rest candidate
with_user _ candidate = scp_rest candidate

scp_match : Text → Option (Text × Text)
unfolding with_user span is_user
scp_match candidate = with_user (span is_user candidate) candidate

-- `path ? host/path : host`.
unfoldable pub join_path : Text → Text → Text
join_path host [] = host
join_path host (c ∷ path) = host ++ b'/' ∷ c ∷ path

-- What precedes a query or a fragment.
before_query : Text → Text
unfolding before
before_query path = before b'#' (before b'?' path)

-- `[\w+.-]`.
is_scheme : ℕ → Bool
unfolding is_digit
is_scheme c =
    is_digit c
    || (leb b'a' c && leb c b'z')
    || (leb b'A' c && leb c b'Z')
    || c == b'_'
    || c == b'+'
    || c == b'.'
    || c == b'-'

has_scheme : Text × Text → Bool
has_scheme ((s ∷ scheme), (a ∷ b ∷ c ∷ rest)) = a == b':' && b == b'/' && c == b'/'
has_scheme _ = false

drop_slashes : Text → Text
drop_slashes [] = []
drop_slashes (c ∷ s) = if c == b'/' then drop_slashes s else c ∷ s

from_url : Option (Text × Text) → Option Text
unfolding join_path strip_dot_git drop_slashes
from_url (some ((h ∷ hostname), pathname)) =
    some (join_path (h ∷ hostname) (strip_dot_git (drop_slashes pathname)))
from_url _ = none

module _ (parse_url : Text → Option (Text × Text)) where
  unless_scp : Option (Text × Text) → Text → Option Text
  unfolding from_url has_scheme span is_scheme join_path strip_dot_git before_query
  unless_scp (some (host, path)) candidate =
      some (join_path host (strip_dot_git (before_query path)))
  unless_scp none candidate =
      if has_scheme (span is_scheme candidate) then from_url (parse_url candidate) else none

  of_candidate : Text → Option Text
  unfolding unless_scp scp_match
  of_candidate [] = none
  of_candidate (c ∷ s) = unless_scp (scp_match (c ∷ s)) (c ∷ s)

  unfoldable pub normalize_remote : Text → Option Text
  unfolding of_candidate trim
  normalize_remote url = of_candidate (trim url)
