-- ===== src/Extension.antt =====
-- apps/browser-extension/src/background: the extension's side of the bridge, and its tab groups.
pub mod Bridge
mod Tests
