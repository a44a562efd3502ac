-- ===== src/Reconcile/Repairs.antt =====
-- internal/reconcile/repair.go: what a repair does to its node (runRepairAction), with the restore of
-- internal/reconcile/etcdsnapshot.go. A failure keeps what was done to the cluster before it.
pub mod Kept
use kaa_s_demo.Domain.Phase.{is_control_plane}
use kaa_s_demo.Go.Time.{Time}
use kaa_s_demo.Prelude.{
  List, text_eq, if◌then◌else◌, Option, Bool, Text, [], ◌∷◌, none, some, true, false, inl, inr,
}
use kaa_s_demo.Domain.Cluster.{infra_provider, Cluster, ha}
use kaa_s_demo.Domain.Node.{Node}
use kaa_s_demo.Domain.Observed.{RepairAction}
use kaa_s_demo.Etcd.Snapshot.{
  EtcdSnapshotPolicy, Restore, restorable_snapshot, none_stored, too_old, restoring,
}
use kaa_s_demo.Reconcile.Seams.{Seams}
use kaa_s_demo.Reconcile.Nodes.{ProvisionedNode, golden_image_name_for}
use kaa_s_demo.Reconcile.Replace.{replace_node, recreate_node_vm, node_named}
use kaa_s_demo.Store.Memory.{Memory}
use kaa_s_demo.Store.Log.{list_etcd_snapshots, get_etcd_snapshot_payload}

unfoldable pub current_image : Cluster → Text
current_image c = golden_image_name_for (infra_provider c) c.os_image c.k8s_version

-- a node that predates the tracking of images has none
abbrev pub image_of : Cluster → Node → Text
image_of c node = if text_eq node.image [] then current_image c else node.image

module _ (s : Seams) (p : EtcdSnapshotPolicy) (now : Time) where
  unfoldable pub repair_by_replacement : Cluster → Node → Cluster × Bool
  repair_by_replacement c node = replace_node s c node (image_of c node) true

  -- the payload is unsealed and put on the node; what was observed of the old one is dropped
  unfoldable pub restore_payload : Cluster → Node → Option Text → Cluster × Bool
  restore_payload c node none = (c, false)
  restore_payload c node (some sealed) = elim (s.unseal sealed) [
    | none ↦ (c, false)
    | some payload ↦
        if s.restore_etcd_snapshot c node payload
        then (record c { cert_not_after = none; etcd = none }, true)
        else (c, false)
  ]

  unfoldable pub restore_snapshot : Cluster → Node → Memory → Cluster × Bool
  restore_snapshot c node m = elim (restorable_snapshot (list_etcd_snapshots m c.id) p now) [
    | none_stored ↦ (c, false)
    | too_old a limit ↦ (c, false)
    | restoring snap a ↦ restore_payload c node (get_etcd_snapshot_payload m snap.id)
  ]

  unfoldable pub restore_onto :
      Node → Memory → Cluster × Option (List ProvisionedNode) → Cluster × Bool
  restore_onto node m (c, none) = (c, false)
  restore_onto node m (c, some nodes) = restore_snapshot c (node_named c.nodes node.vm_name) m

  unfoldable pub repair_by_restore : Cluster → Node → Memory → Cluster × Bool
  repair_by_restore c node m =
      if ha c
      then (c, false)
      else restore_onto node m (recreate_node_vm s c node (image_of c node) true)

  unfoldable pub rejoin_node : Cluster → Node → Bool
  rejoin_node c node =
      if is_control_plane node.role then s.join_control_plane c node else s.join_workers c

  unfoldable pub run_repair_action : Option RepairAction → Cluster → Node → Memory → Cluster × Bool
  run_repair_action none c node m = (c, false)
  run_repair_action (some RepairAction.power_on) c node m = (c, s.power_on c node)
  run_repair_action (some RepairAction.restart_kubelet) c node m = (c, s.restart_kubelet c node)
  run_repair_action (some RepairAction.rejoin) c node m = (c, rejoin_node c node)
  run_repair_action (some RepairAction.replace) c node m = repair_by_replacement c node
  run_repair_action (some RepairAction.restore) c node m = repair_by_restore c node m
