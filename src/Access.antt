-- ===== src/Access.antt =====
-- internal/server/access.go, internal/server/approval.go and internal/store/access.go: who may reach
-- the program over the network.
pub mod Request
pub mod Approvals
pub mod Failing
pub mod Guard
pub mod Mirror
pub mod Runs
pub mod Safety
pub mod Tests
