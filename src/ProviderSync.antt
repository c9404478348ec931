-- ===== src/ProviderSync.antt =====
-- packages/opencode-provider-sync/src: the models of the configured servers, kept in sync. Here are
-- the types of types.ts.
pub mod Models
pub mod Scheduler
pub mod Engine
mod Tests
use lightbridge_opencode_too.Common.{ℕ, Option, List}
use lightbridge_opencode_too.Common.Text.{Text}
use lightbridge_opencode_too.Common.Js.{Fields}
use lightbridge_opencode_too.Auth.{TokenSet}

-- A raw model is an object with a non-empty text `id`, which stands beside it.
pub record RawModel : Type 0 where
  pub id : Text
  pub fields : Fields

pub record NormalizedModel : Type 0 where
  pub id : Text
  pub display_name : Text

pub record Renamed : Type 0 where
  pub id : Text
  pub before : Text
  pub after : Text

pub record ModelDiff : Type 0 where
  pub added : List Text
  pub removed : List Text
  pub renamed : List Renamed

pub record CachedServerState : Type 0 where
  pub server_id : Text
  pub updated_at : ℕ
  pub last_sync_at : Option ℕ
  pub models : List NormalizedModel
  pub raw_models : List RawModel
  pub token : Option TokenSet

pub record ServerSnapshot : Type 0 where
  pub server_id : Text
  pub models : List NormalizedModel
  pub last_sync_at : Option ℕ
