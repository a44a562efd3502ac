-- ===== src/Store.antt =====
-- internal/store/store.go: the in-memory store.
pub mod Table
pub mod Memory
pub mod Log
pub mod Scan
pub mod Requests
pub mod Sound
pub mod Find
pub mod Accounts
pub mod Superseded
pub mod Secrets
pub mod History
pub mod Session
