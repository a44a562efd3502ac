-- ===== src/Examples.antt =====
-- The theorems at concrete inputs, and tests of the definitions.
pub mod Samples
mod Repair
mod NetPool
mod Static
mod Maintenance
pub mod Etcd
mod Quota
mod Throttle
pub mod Store
mod Reconcile
mod Domain
mod Catalog
mod Access
