-- ===== src/Ratelimit.antt =====
-- packages/opencode-ratelimit: the data that its modules share (src/types.ts).
pub mod Config
pub mod Headers
pub mod Fetch
pub mod Gate
mod Tests
use lightbridge_opencode_too.Common.{ℕ, Option, List, Bool}
use lightbridge_opencode_too.Common.Int.{ℤ}
use lightbridge_opencode_too.Common.Text.{Text}

pub data Scope : Type 0 where
  provider model : Scope

pub data Action : Type 0 where
  wait error : Action

-- `none` is the catch-all bound `null`.
pub record Tier : Type 0 where
  pub max_reset_seconds : Option ℕ
  pub action : Action
  pub max_wait_ms : ℕ
  pub max_retries : ℕ

pub record Options : Type 0 where
  pub enabled : Bool
  pub scope : Scope
  pub header_prefix : Text
  pub tiers : List Tier

pub record Snapshot : Type 0 where
  pub limit : Option ℤ
  pub remaining : Option ℤ
  pub reset_seconds : Option ℤ
  pub reset_at_ms : Option ℤ
  pub retry_after_ms : Option ℤ
