-- ===== src/Engine.antt =====
-- internal/engine: the parts of the torrent engine that are the program's own. The parts are children.
pub mod Layout
pub mod Census
pub mod Regroup
pub mod Tests
