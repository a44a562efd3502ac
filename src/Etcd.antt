-- ===== src/Etcd.antt =====
-- internal/domain/etcd.go and etcdsnapshot.go: when a cluster's etcd is defragmented, observed,
-- snapshotted and restored.
pub mod Defrag
pub mod Snapshot
