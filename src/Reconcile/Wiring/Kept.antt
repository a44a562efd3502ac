-- ===== src/Reconcile/Wiring/Kept.antt =====
-- internal/reconcile: what the parts of a pass leave of a cluster.
use kaa_s_demo.Domain.Cluster.{Cluster}
use kaa_s_demo.Prelude.{arith, ◌≡◌}
use kaa_s_demo.Reconcile.Act.{Ensures}
use kaa_s_demo.Reconcile.Seams.{Seams}
use kaa_s_demo.Reconcile.Wiring.{
  reconcile_addons, reconcile_monitoring_wiring, reconcile_gateway_wiring, reconcile_dns_wiring,
  reconcile_vault_wiring, reconcile_registry_wiring, reconcile_storage_wiring, mount_node_disks,
  release_removed_disks, release_dns, release_vault, release_registry,
}

-- the same row, in the same phase, of the same desired state and with the same nodes
abbrev pub IsSameRow : Cluster → Cluster → Type 0
IsSameRow c d =
    (d.id ≡ c.id)
    × (d.generation ≡ c.generation)
    × (d.observed_generation ≡ c.observed_generation)
    × (d.phase ≡ c.phase)

pub IsSameRow-trans : (c d e : Cluster) → IsSameRow c d → IsSameRow d e → IsSameRow c e
IsSameRow-trans c d e h k = ground arith

module _ (s : Seams) (c : Cluster) where
  pub addons-IsSameRow : Ensures (IsSameRow c) (reconcile_addons s c)
  unfolding reconcile_addons
  addons-IsSameRow m d e = ground arith

  pub monitoring-IsSameRow : Ensures (IsSameRow c) (reconcile_monitoring_wiring s c)
  unfolding reconcile_monitoring_wiring
  monitoring-IsSameRow m d e = ground arith

  pub gateway-IsSameRow : Ensures (IsSameRow c) (reconcile_gateway_wiring s c)
  unfolding reconcile_gateway_wiring
  gateway-IsSameRow m d e = ground arith

  pub dns-IsSameRow : Ensures (IsSameRow c) (reconcile_dns_wiring s c)
  unfolding reconcile_dns_wiring
  dns-IsSameRow m d e = ground arith

  pub vault-IsSameRow : Ensures (IsSameRow c) (reconcile_vault_wiring s c)
  unfolding reconcile_vault_wiring
  vault-IsSameRow m d e = ground arith

  pub storage-IsSameRow : Ensures (IsSameRow c) (reconcile_storage_wiring s c)
  unfolding reconcile_storage_wiring
  storage-IsSameRow m d e = ground arith

  pub registry-IsSameRow : Ensures (IsSameRow c) (reconcile_registry_wiring s c)
  unfolding reconcile_registry_wiring
  registry-IsSameRow m d e = ground arith

  pub mount-IsSameRow : Ensures (IsSameRow c) (mount_node_disks s c)
  unfolding mount_node_disks
  mount-IsSameRow m d e = ground arith

  pub removed-IsSameRow : Ensures (IsSameRow c) (release_removed_disks s c)
  unfolding release_removed_disks
  removed-IsSameRow m d e = ground arith

  pub dns_release-IsSameRow : Ensures (IsSameRow c) (release_dns s c)
  unfolding release_dns
  dns_release-IsSameRow m d e = ground arith

  pub vault_release-IsSameRow : Ensures (IsSameRow c) (release_vault s c)
  unfolding release_vault
  vault_release-IsSameRow m d e = ground arith

  pub registry_release-IsSameRow : Ensures (IsSameRow c) (release_registry s c)
  unfolding release_registry
  registry_release-IsSameRow m d e = ground arith
