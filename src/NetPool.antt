-- ===== src/NetPool.antt =====
-- internal/netpool: which node network a cluster gets, and the addresses derived from it.
pub mod Ip
pub mod Allocate
pub mod Derive
pub mod Static
