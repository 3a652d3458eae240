-- ===== src/Sync.antt =====
-- internal/store/sync.go and internal/library/sync.go: the watch list and its copy on AniList.
pub mod Entry
pub mod Remote
pub mod Agreement
pub mod Push
pub mod Edits
pub mod Runs
pub mod Settled
pub mod Laws
pub mod Races
pub mod Tests
