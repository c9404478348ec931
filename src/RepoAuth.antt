-- ===== src/RepoAuth.antt =====
-- packages/opencode-repo-auth/src: the options of a provider, and the remotes of a repository.
pub mod Config
pub mod Git
mod Tests
