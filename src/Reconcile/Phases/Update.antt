-- ===== src/Reconcile/Phases/Update.antt =====
-- internal/reconcile/reconcile.go: the ticks that run passes over a cluster.
use kaa_s_demo.Reconcile.Phases.Passes.{
  run_passes-IsSameRow, converge_passes-All, converge-IsSameRow, IsTickOf,
}
use kaa_s_demo.Reconcile.Wiring.{release_removed_disks}
use kaa_s_demo.Reconcile.Nodes.{
  ProvisionedNode, removed_workers, node_specs, disks_converged, nodes_converged, observe_disks,
}
use kaa_s_demo.Prelude.Any.{All}
use kaa_s_demo.Domain.Cluster.{Cluster}
use kaa_s_demo.Prelude.{◌==◌, length, codes, if◌then◌else◌, ◌≡◌, arith, List, some, true}
use kaa_s_demo.Reconcile.Act.{
  then-Ensures, Act, ◌>>=◌, ◌>>◌, pure, ask, check, Ensures, bind-Ensures,
}
use kaa_s_demo.Reconcile.Seams.{Seams}
use kaa_s_demo.Reconcile.Wiring.Kept.{
  IsSameRow, mount-IsSameRow, removed-IsSameRow, dns_release-IsSameRow, vault_release-IsSameRow,
  registry_release-IsSameRow,
}
use kaa_s_demo.Reconcile.Phases.{phase_step, update_tick, delete_tick, settle}
use kaa_s_demo.Reconcile.Steps.{
  update_passes, release_passes, TickInputs, run_passes, converge_cluster, nodes_ensured,
}
use kaa_s_demo.Reconcile.WorkSet.{Schedule}
use kaa_s_demo.Domain.Phase.{Phase}

module _ {F : Type 0} (s : Seams) (p : Schedule F) (i : TickInputs F) (c : Cluster) where
  pub tick_addons :
      Ensures (IsTickOf Phase.installing_addons c) (phase_step s p i Phase.installing_addons c)
  unfolding phase_step settle
  tick_addons =
      bind-Ensures (IsSameRow c) (IsTickOf Phase.installing_addons c) (converge_cluster s c)
        (λ c1. do
          let done = nodes_converged c1
          pure (record (settle s p i done c1) {
            status = if done then codes "cluster ready" else c1.status;
          }))
        (converge-IsSameRow s c) (λ c1 same m d e. ground arith)

  pub tick_delete : Ensures (IsTickOf Phase.deleting c) (phase_step s p i Phase.deleting c)
  unfolding phase_step delete_tick release_passes
  tick_delete =
      bind-Ensures (IsSameRow c) (IsTickOf Phase.deleting c) (run_passes (release_passes s) c)
        (λ c1. do
          check (s.destroy_cluster c1)
          pure (record c1 { deleted_at = some i.now; phase = Phase.deleted }))
        (run_passes-IsSameRow (release_passes s)
          (dns_release-IsSameRow s, (vault_release-IsSameRow s, (registry_release-IsSameRow s, tt)))
          c)
        (λ c1 same m d e. ground arith)

  -- the rest of an update, after the disks that go
  after_release : Cluster → Act Cluster
  after_release c1 = do
    nodes ← ask (s.ensure_nodes c1 (node_specs c1))
    check (s.join_workers (nodes_ensured c1 nodes))
    c3 ← run_passes (update_passes s) (nodes_ensured c1 nodes)
    pure (settle s p i (disks_converged c3.node_disks) c3)

  update_passes-All : All (λ f. (c' : Cluster) → Ensures (IsSameRow c') (f c')) (update_passes s)
  unfolding update_passes
  update_passes-All = (mount-IsSameRow s, converge_passes-All s)

  after_release-lem :
      (c1 : Cluster) → IsSameRow c c1 → Ensures (IsTickOf Phase.updating c) (after_release c1)
  unfolding after_release
  after_release-lem c1 same =
      then-Ensures (IsTickOf Phase.updating c) (ask (s.ensure_nodes c1 (node_specs c1)))
        (λ nodes. do
          check (s.join_workers (nodes_ensured c1 nodes))
          c3 ← run_passes (update_passes s) (nodes_ensured c1 nodes)
          pure (settle s p i (disks_converged c3.node_disks) c3))
        (λ nodes.
          then-Ensures (IsTickOf Phase.updating c) (check (s.join_workers (nodes_ensured c1 nodes)))
            (λ _. do
              c3 ← run_passes (update_passes s) (nodes_ensured c1 nodes)
              pure (settle s p i (disks_converged c3.node_disks) c3))
            (λ _.
              bind-Ensures (IsSameRow (nodes_ensured c1 nodes)) (IsTickOf Phase.updating c)
                (run_passes (update_passes s) (nodes_ensured c1 nodes))
                (λ c3. pure (settle s p i (disks_converged c3.node_disks) c3))
                (run_passes-IsSameRow (update_passes s) update_passes-All (nodes_ensured c1 nodes))
                (λ c3 same3 m d e. settled c1 nodes c3 d same same3 e)))
    where
      settled :
          (c1 : Cluster) (nodes : List ProvisionedNode) (c3 d : Cluster)
          → IsSameRow c c1
          → IsSameRow (nodes_ensured c1 nodes) c3
          → some (settle s p i (disks_converged c3.node_disks) c3) ≡ some d
          → IsTickOf Phase.updating c d
      settled c1 nodes c3 d same same3 e = unfold settle nodes_ensured observe_disks in ground arith

  pub tick_update : Ensures (IsTickOf Phase.updating c) (phase_step s p i Phase.updating c)
  unfolding phase_step update_tick after_release
  tick_update =
      then-Ensures (IsTickOf Phase.updating c)
        (check (
          if length (removed_workers c.nodes (node_specs c)) == 0
          then true
          else s.remove_workers c (removed_workers c.nodes (node_specs c))))
        (λ _. release_removed_disks s c >>= after_release)
        (λ _.
          bind-Ensures (IsSameRow c) (IsTickOf Phase.updating c) (release_removed_disks s c)
            after_release (removed-IsSameRow s c) after_release-lem)
