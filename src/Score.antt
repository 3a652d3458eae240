-- ===== src/Score.antt =====
-- internal/score: which torrent of an episode is started automatically. The parts are children.
pub mod Float
pub mod Tier
pub mod Candidate
pub mod Specs
pub mod Evaluate
pub mod Rank
pub mod Order
pub mod Sort
pub mod Ranking
pub mod Acceptance
pub mod Size
pub mod Tests
