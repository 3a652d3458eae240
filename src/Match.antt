-- ===== src/Match.antt =====
-- internal/match: which show a release's title names.
pub mod Dice
pub mod Shared
pub mod Bounds
pub mod Index
pub mod Scan
pub mod Tests
