-- ===== src/Reconcile/Phases/Edges.antt =====
-- internal/reconcile/reconcile.go: the phases that one tick leads to.
use kaa_s_demo.Reconcile.Phases.Passes.{may_follow, IsTickOf}
use kaa_s_demo.Reconcile.Phases.Update.{tick_addons, tick_delete, tick_update}
use kaa_s_demo.Reconcile.Phases.Ready.{tick_ready}
use kaa_s_demo.Repair.{repair_state, in_flight}
use kaa_s_demo.Reconcile.Wiring.{mount_node_disks}
use kaa_s_demo.Store.Memory.{Memory}
use kaa_s_demo.Reconcile.Nodes.{node_by_name, observe_disks}
use kaa_s_demo.Domain.Cluster.{Cluster}
use kaa_s_demo.Prelude.{Option-cases, inr, inl, refl, Bool-cases, ◌≡◌, arith, some, true}
use kaa_s_demo.Reconcile.Act.{Ensures}
use kaa_s_demo.Reconcile.Repairs.Kept.{run_repair_action-IsSameRow}
use kaa_s_demo.Reconcile.Upgrade.Edges.{reconcile_upgrade-IsUpgraded}
use kaa_s_demo.Reconcile.Seams.{Seams}
use kaa_s_demo.Reconcile.Wiring.Kept.{IsSameRow}
use kaa_s_demo.Reconcile.Phases.{phase_step}
use kaa_s_demo.Reconcile.Steps.{
  TickInputs, finish_repair, execute_repair, reconcile_cert_renewal, reconcile_snapshot,
  as_operation, close_op, nodes_ensured,
}
use kaa_s_demo.Reconcile.WorkSet.{Schedule}
use kaa_s_demo.Domain.Phase.{Phase}

module _ {F : Type 0} (s : Seams) (p : Schedule F) (i : TickInputs F) (c : Cluster) where
  tick_pending : Ensures (IsTickOf Phase.pending c) (phase_step s p i Phase.pending c)
  unfolding phase_step
  tick_pending m d e = ground arith

  tick_infra :
      Ensures (IsTickOf Phase.provisioning_infra c) (phase_step s p i Phase.provisioning_infra c)
  unfolding phase_step nodes_ensured observe_disks
  tick_infra m d e = ground arith

  tick_control_plane : Ensures (IsTickOf Phase.infra_ready c) (phase_step s p i Phase.infra_ready c)
  unfolding phase_step
  tick_control_plane m d e = ground arith

  tick_workers :
      Ensures (IsTickOf Phase.control_plane_ready c) (phase_step s p i Phase.control_plane_ready c)
  unfolding phase_step
  tick_workers m d e = ground arith

  tick_certs : Ensures (IsTickOf Phase.renewing_certs c) (phase_step s p i Phase.renewing_certs c)
  unfolding phase_step reconcile_cert_renewal as_operation close_op
  tick_certs m d e = ground arith

  tick_defrag :
      Ensures (IsTickOf Phase.defragmenting_etcd c) (phase_step s p i Phase.defragmenting_etcd c)
  unfolding phase_step as_operation close_op
  tick_defrag m d e = ground arith

  tick_snapshot :
      Ensures (IsTickOf Phase.snapshotting_etcd c) (phase_step s p i Phase.snapshotting_etcd c)
  unfolding phase_step reconcile_snapshot as_operation close_op
  tick_snapshot m d e = ground arith

  tick_cni : Ensures (IsTickOf Phase.workers_ready c) (phase_step s p i Phase.workers_ready c)
  unfolding phase_step mount_node_disks
  tick_cni m d e = ground arith

  executed : (m : Memory) → IsSameRow c (execute_repair s p i c m).0
  unfolding execute_repair
  executed m = elim (Bool-cases (in_flight (repair_state c))) [
    | inr idle ↦ simp (execute_repair, idle) (refl, refl, refl, refl)
    | inl flies ↦ elim (Option-cases (node_by_name c.nodes (repair_state c).target)) [
      | inl gone ↦ simp (execute_repair, flies, gone) (refl, refl, refl, refl)
      | inr (n, found) ↦
          simp (execute_repair, flies, found)
            (run_repair_action-IsSameRow s p.snapshot_policy i.now (repair_state c).action c n _)
    ]
  ]

  tick_repair : Ensures (IsTickOf Phase.repairing c) (phase_step s p i Phase.repairing c)
  unfolding phase_step finish_repair
  tick_repair m d e = let same = executed m in ground arith

  tick_upgrade :
      c.phase ≡ Phase.upgrading
      → Ensures (IsTickOf Phase.upgrading c) (phase_step s p i Phase.upgrading c)
  unfolding phase_step
  tick_upgrade is_ m d e =
      let done = reconcile_upgrade-IsUpgraded s c is_ i.catalog m d e in ground arith

  tick_of : (q : Phase) → c.phase ≡ q → Ensures (IsTickOf q c) (phase_step s p i q c)
  tick_of Phase.pending e = tick_pending
  tick_of Phase.provisioning_infra e = tick_infra
  tick_of Phase.infra_ready e = tick_control_plane
  tick_of Phase.control_plane_ready e = tick_workers
  tick_of Phase.workers_ready e = tick_cni
  tick_of Phase.installing_addons e = tick_addons s p i c
  tick_of Phase.ready e = tick_ready s p i c e
  tick_of Phase.updating e = tick_update s p i c
  tick_of Phase.upgrading e = tick_upgrade e
  tick_of Phase.renewing_certs e = tick_certs
  tick_of Phase.defragmenting_etcd e = tick_defrag
  tick_of Phase.snapshotting_etcd e = tick_snapshot
  tick_of Phase.repairing e = tick_repair
  tick_of Phase.deleting e = tick_delete s p i c
  tick_of Phase.deleted is_ = λ m d e. unfold phase_step in ground arith
  tick_of Phase.failed is_ = λ m d e. unfold phase_step in ground arith

-- A tick that returns a cluster leads from its phase along an edge of the phase diagram, and keeps its
-- id and generation, whatever the services answer.
pub phase_step-may_follow :
    {F : Type 0} (s : Seams) (p : Schedule F) (i : TickInputs F) (c : Cluster)
    → (m : Memory) (d : Cluster) → (phase_step s p i c.phase c m).0 ≡ some d
    → (may_follow c.phase d.phase ≡ true) × (d.id ≡ c.id) × (d.generation ≡ c.generation)
phase_step-may_follow s p i c m d e = tick_of s p i c c.phase refl m d e
