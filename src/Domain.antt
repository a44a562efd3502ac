-- ===== src/Domain.antt =====
-- The control plane's data model (internal/domain): clusters, their nodes, disks and pools, and
-- what is observed of them.
pub mod Phase
pub mod Node
pub mod Health
pub mod Observed
pub mod Cluster
pub mod User
pub mod Group
pub mod Operation
pub mod Desired
pub mod Disks
pub mod Admission
