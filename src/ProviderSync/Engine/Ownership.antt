-- ===== src/ProviderSync/Engine/Ownership.antt =====
-- packages/opencode-provider-sync/src/engine.ts: which engine of a process polls which cache file.
use lightbridge_opencode_too.Common.{
  ◌≡◌, ◌≢◌, Bool, true, false, not, Option, none, some, List, [], ◌∷◌, ◌++◌, arith, if◌then◌else◌,
}
use lightbridge_opencode_too.Common.Text.{Text, codes, text_eq, text_eq_iff}
use lightbridge_opencode_too.Common.Maps.{Map, lookup, set, delete, Text_eq}

-- `schedulerOwnershipKey`.
unfoldable pub scheduler_ownership_key : Text → Text → Text
scheduler_ownership_key cache_dir server_id = cache_dir ++ codes "::" ++ server_id

-- `existing && existing !== ownerId`.
is_taken : Option Text → Text → Bool
is_taken none owner_id = false
is_taken (some []) owner_id = false
is_taken (some (c ∷ s)) owner_id = not (text_eq (c ∷ s) owner_id)

unfoldable pub claim_scheduler_ownership : Text → Text → Map Text Text → Map Text Text × Bool
unfolding is_taken
claim_scheduler_ownership key owner_id owners =
    if is_taken (lookup key owners) owner_id
    then (owners, false)
    else (set key owner_id owners, true)

is_held_by : Option Text → Text → Bool
is_held_by none owner_id = false
is_held_by (some owner) owner_id = text_eq owner owner_id

unfoldable pub release_scheduler_ownership : Text → Text → Map Text Text → Map Text Text
unfolding is_held_by
release_scheduler_ownership key owner_id owners =
    if is_held_by (lookup key owners) owner_id then delete key owners else owners

-- The registry of the process, and the pairs of an engine and a key at which the engine's runtime has
-- `ownsScheduler`.
pub record Process : Type 0 where
  pub owners : Map Text Text
  pub owns : List (Text × Text)

own_if : Bool → Text → Text → List (Text × Text) → List (Text × Text)
own_if true owner_id key owns = (owner_id, key) ∷ owns
own_if false owner_id key owns = owns

-- The part of `start` for one server.
unfoldable pub start_server : Text → Text → Text → Process → Process
unfolding own_if
start_server owner_id cache_dir server_id p =
    let key = scheduler_ownership_key cache_dir server_id in
    let (owners, claimed) = claim_scheduler_ownership key owner_id p.owners in
    record { owners = owners; owns = own_if claimed owner_id key p.owns }

-- `stop`: every key of the engine is released, and is owned no more.
release_owned : Text → List (Text × Text) → Map Text Text → Map Text Text
release_owned owner_id [] owners = owners
release_owned owner_id ((e, key) ∷ rest) owners =
    release_owned owner_id rest
      (if text_eq e owner_id then release_scheduler_ownership key owner_id owners else owners)

disown : Text → List (Text × Text) → List (Text × Text)
disown owner_id [] = []
disown owner_id ((e, key) ∷ rest) =
    let more = disown owner_id rest in if text_eq e owner_id then more else (e, key) ∷ more

unfoldable pub stop_engine : Text → Process → Process
unfolding release_owned disown
stop_engine owner_id p = record {
  owners = release_owned owner_id p.owns p.owners;
  owns = disown owner_id p.owns;
}

-- Instance ids are UUIDs, and so not empty.
pub data Reachable : Process → Type 0 where
  begin : Reachable (record { owners = []; owns = [] })
  started :
      (owner_id cache_dir server_id : Text) {p : Process}
      → owner_id ≢ []
      → Reachable p
      → Reachable (start_server owner_id cache_dir server_id p)
  stopped : (owner_id : Text) {p : Process} → Reachable p → Reachable (stop_engine owner_id p)

-- An engine that owns a key is the registered owner, and has an id.
abbrev IsRegistered : Map Text Text → Text × Text → Type 0
IsRegistered owners x = (lookup x.1 owners ≡ some x.0) × (x.0 ≢ [])

text_neq : (s t : Text) → s ≢ t → text_eq s t ≡ false
text_neq s t h = ground (arith, text_eq_iff s t)
