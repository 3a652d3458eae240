-- ===== src/Film.antt =====
-- internal/film: which film of a series a name or a file is. The parts are children.
pub mod Words
pub mod Number
pub mod Key
pub mod Pick
pub mod Tests
