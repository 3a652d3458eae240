-- ===== src/Cache.antt =====
-- internal/library/cache.go and internal/store/cache.go: the downloads on record, and which of them
-- are deleted to stay within the budget.
pub mod Entry
pub mod Store
pub mod Order
pub mod Evict
pub mod Sweep
pub mod Remove
pub mod Stall
pub mod Vanish
pub mod Tests
