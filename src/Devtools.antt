-- ===== src/Devtools.antt =====
-- packages/opencode-devtools/src: the tools that need no browser.
pub mod Http
pub mod Radix
mod Tests
