-- ===== src/Reconcile/Phases.antt =====
-- internal/reconcile: one tick of one cluster (reconcileOne). One instant stands for all the readings
-- of the clock in a tick. The texts of the action history and its new ids are arguments. The event
-- log is left out.
pub mod Passes
pub mod Update
pub mod Ready
pub mod Edges
pub mod Persist
use kaa_s_demo.Maintenance.{LocalTime}
use kaa_s_demo.Go.Float.{Float}
use kaa_s_demo.Prelude.Int.{pos}
use kaa_s_demo.Domain.Node.{Node}
use kaa_s_demo.Domain.Observed.{ClusterRepair, EtcdStatus}
use kaa_s_demo.Go.Time.{before, Time}
use kaa_s_demo.Domain.Cluster.{cert_renewal_due, is_converged, upgrade_pending, Cluster}
use kaa_s_demo.Domain.Observed.{RepairAction}
use kaa_s_demo.Prelude.{
  ◌&&◌, codes, ◌==◌, not, length, Bool, ℕ, if◌then◌else◌, List, Text, Option, [], ◌∷◌, none, some,
  true, false, ◌++◌,
}
use kaa_s_demo.Reconcile.Act.{Act, ◌>>=◌, ◌>>◌, pure, ask, check, modify, gets}
use kaa_s_demo.Reconcile.Seams.{Seams}
use kaa_s_demo.Reconcile.Wiring
use kaa_s_demo.Reconcile.Upgrade
use kaa_s_demo.Reconcile.Repairs.{run_repair_action}
use kaa_s_demo.Catalog.{Catalog}
use kaa_s_demo.Reconcile.Nodes.{
  ProvisionedNode, node_specs, to_domain_nodes, observe_disks, nodes_converged, removed_workers,
  disks_converged, node_by_name,
}
use kaa_s_demo.Reconcile.WorkSet.{Schedule, cert_renew_enabled, cert_renew_cutoff}
use kaa_s_demo.Store.Memory.{Memory, update_cluster_unless_superseded}
use kaa_s_demo.Store.Log.{
  record_operation, complete_operation, complete_operations, save_etcd_snapshot,
  list_etcd_snapshots, delete_etcd_snapshot, get_secret,
}
use kaa_s_demo.Domain.Operation.{Operation, OperationKind, OperationStatus}
use kaa_s_demo.Domain.Phase.{Phase, SecretKind}
use kaa_s_demo.Etcd.Snapshot.{EtcdSnapshot, etcd_snapshot_due, prune_etcd_snapshots}
use kaa_s_demo.Etcd.Defrag.{etcd_maintenance_due, defrag_due}
use kaa_s_demo.Repair.{in_flight, repair_state, repair_due}
use kaa_s_demo.Repair.Tick.{HealthRead, PowerRead, reconcile_repair}
use kaa_s_demo.Repair.Attempt.{complete_attempt}
use kaa_s_demo.Reconcile.Steps.{
  TickInputs, answer_of, run_passes, converge_passes, converge_cluster, release_passes,
  update_passes, nodes_ensured, auto_op, close_op, as_operation, reconcile_certs,
  reconcile_cert_renewal, observed_etcd, reconcile_etcd, prune_snapshots, reconcile_snapshot,
  execute_repair, finish_repair,
}

module _ {F : Type 0} (s : Seams) (p : Schedule F) (i : TickInputs F) where
  unfoldable pub settle : Bool → Cluster → Cluster
  settle converged c = record c {
    phase = Phase.ready;
    observed_generation = if converged then c.generation else c.observed_generation;
  }

  -- a cluster that predates the viewer's kubeconfig gets one
  unfoldable pub heal_viewer : Cluster → Act (Unit {0})
  heal_viewer c = do
    stored ← gets (λ m. get_secret m c.id SecretKind.kubeconfig_viewer)
    elim stored [ some _ ↦ pure tt | none ↦ Wiring.ensure_viewer s c ]

  -- what a Ready cluster is due for, the first that applies
  unfoldable pub ready_choice : Cluster → Act Cluster
  ready_choice c =
      if upgrade_pending c
      then pure (record c { phase = Phase.upgrading })
      else if not (c.observed_generation == c.generation)
      then pure (record c { phase = Phase.updating })
      else if repair_due c p.repair_policy i.now
      then ask (answer_of (reconcile_repair i.fl p.repair_policy i.health i.power i.fleet i.now c))
      else if cert_renew_enabled p && cert_renewal_due c (cert_renew_cutoff p i.now)
      then reconcile_certs s p i c
      else if etcd_snapshot_due c p.snapshot_policy i.now
      then pure (record c { phase = Phase.snapshotting_etcd })
      else if etcd_maintenance_due c p.etcd_policy i.now
      then reconcile_etcd s p i c
      else pure c

  unfoldable pub ready_tick : Cluster → Act Cluster
  ready_tick c = do heal_viewer c; ready_choice c

  unfoldable pub update_tick : Cluster → Act Cluster
  update_tick c = do
    check (
        if length (removed_workers c.nodes (node_specs c)) == 0
        then true
        else s.remove_workers c (removed_workers c.nodes (node_specs c)))
    c1 ← Wiring.release_removed_disks s c
    nodes ← ask (s.ensure_nodes c1 (node_specs c1))
    let c2 = nodes_ensured c1 nodes
    check (s.join_workers c2)
    c3 ← run_passes (update_passes s) c2
    pure (settle (disks_converged c3.node_disks) c3)

  unfoldable pub delete_tick : Cluster → Act Cluster
  delete_tick c = do
    c1 ← run_passes (release_passes s) c
    check (s.destroy_cluster c1)
    pure (record c1 { deleted_at = some i.now; phase = Phase.deleted })

  -- the `switch` of reconcileOne
  unfoldable pub phase_step : Phase → Cluster → Act Cluster
  phase_step Phase.pending c = pure (record c { phase = Phase.provisioning_infra })
  phase_step Phase.provisioning_infra c = do
    nodes ← ask (s.ensure_nodes c (node_specs c))
    pure (record (nodes_ensured c nodes) { phase = Phase.infra_ready })
  phase_step Phase.infra_ready c = do
    (kubeconfig, token) ← ask (s.init_control_plane c)
    Wiring.save_sealed s c.id SecretKind.kubeconfig kubeconfig
    Wiring.save_sealed s c.id SecretKind.join_token token
    pure (record c { phase = Phase.control_plane_ready })
  phase_step Phase.control_plane_ready c = do
    check (s.join_workers c)
    pure (record c { phase = Phase.workers_ready })
  phase_step Phase.workers_ready c = do
    check (s.install_cni c)
    Wiring.ensure_viewer s c
    c1 ← Wiring.mount_node_disks s c
    pure (record c1 { phase = Phase.installing_addons })
  phase_step Phase.installing_addons c = do
    c1 ← converge_cluster s c
    let done = nodes_converged c1
    pure (record (settle done c1) { status = if done then codes "cluster ready" else c1.status })
  phase_step Phase.ready c = ready_tick c
  phase_step Phase.updating c = update_tick c
  phase_step Phase.upgrading c = Upgrade.reconcile_upgrade s i.catalog c
  phase_step Phase.renewing_certs c = reconcile_cert_renewal s p i c
  phase_step Phase.defragmenting_etcd c = as_operation s p i c.id OperationKind.defrag (do
    st ← ask (s.defrag_etcd c)
    pure (record c { etcd = some st; phase = Phase.ready }, i.defragged_text c.etcd st))
  phase_step Phase.snapshotting_etcd c = do
    c1 ← reconcile_snapshot s p i c
    pure (record c1 { phase = Phase.ready })
  phase_step Phase.repairing c = finish_repair s p i c
  phase_step Phase.deleting c = delete_tick c
  phase_step Phase.deleted c = pure c
  phase_step Phase.failed c = pure c

  -- A superseded or vanished row drops the transition. A cluster that has converged closes the
  -- operations up to its generation.
  unfoldable pub persist : Cluster → Memory → Memory
  persist c m =
      let (m', e) = update_cluster_unless_superseded m c in
      elim e [
        | none ↦ if is_converged c then complete_operations m' c.id c.generation i.now else m'
        | some _ ↦ m'
      ]

  -- the state after a tick of a copy of the cluster
  unfoldable pub reconcile_one : Cluster → Memory → Memory
  reconcile_one c m =
      let (r, m') = phase_step c.phase c m in elim r [ none ↦ m' | some c' ↦ persist c' m' ]
