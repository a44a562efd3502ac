-- ===== src/Reconcile.antt =====
-- internal/reconcile: the loop that moves each cluster one phase per tick.
pub mod WorkSet
pub mod Nodes
pub mod Act
pub mod Seams
pub mod Wiring
pub mod Steps
pub mod Phases
pub mod Replace
pub mod Upgrade
pub mod Repairs
