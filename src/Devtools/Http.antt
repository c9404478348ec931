-- ===== src/Devtools/Http.antt =====
-- packages/opencode-devtools/src/groups/http.ts: requests that must not reach private hosts.
pub mod Hosts
pub mod Guarded
pub mod Bodies
