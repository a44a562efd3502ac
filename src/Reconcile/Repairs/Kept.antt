-- ===== src/Reconcile/Repairs/Kept.antt =====
-- internal/reconcile/repair.go: a repair keeps the row of its cluster.
use kaa_s_demo.Go.Time.{Time}
use kaa_s_demo.Prelude.{
  refl, Option, Bool, arith, Option-cases, Text, List, none, some, true, false, inl, inr,
}
use kaa_s_demo.Domain.Cluster.{Cluster}
use kaa_s_demo.Domain.Node.{Node}
use kaa_s_demo.Domain.Observed.{RepairAction}
use kaa_s_demo.Etcd.Snapshot.{EtcdSnapshotPolicy}
use kaa_s_demo.Reconcile.Seams.{Seams}
use kaa_s_demo.Reconcile.Nodes.{next_node_to_roll, observe_disks, ProvisionedNode}
use kaa_s_demo.Reconcile.Replace.{
  node_named, unwired, rebuild_node, returned, replace_node, recreate_node_vm, return_,
  roll_one_node,
}
use kaa_s_demo.Reconcile.Repairs.{
  image_of, restore_onto, run_repair_action, repair_by_restore, restore_snapshot, restore_payload,
  repair_by_replacement,
}
use kaa_s_demo.Reconcile.Wiring.Kept.{IsSameRow-trans, IsSameRow}
use kaa_s_demo.Store.Memory.{Memory}

module _ (s : Seams) where
  recreate-IsSameRow :
      (c : Cluster) (node : Node) (target : Text) (force : Bool)
      → IsSameRow c (recreate_node_vm s c node target force).0
  unfolding recreate_node_vm
  recreate-IsSameRow c node target force = ground arith

  return-IsSameRow :
      (c : Cluster) (node : Node) (nodes : List ProvisionedNode)
      → IsSameRow c (return_ s c node nodes).0
  unfolding return_ observe_disks
  return-IsSameRow c node nodes = ground arith

  returned-IsSameRow :
      (c : Cluster) (node : Node) (r : Cluster × Option (List ProvisionedNode))
      → IsSameRow c r.0
      → IsSameRow c (returned s node r).0
  unfolding returned
  returned-IsSameRow c node (d, none) h = h
  returned-IsSameRow c node (d, some nodes) h =
      IsSameRow-trans c d (return_ s d node nodes).0 h (return-IsSameRow d node nodes)

  unwired-IsSameRow : (c : Cluster) (node : Node) → IsSameRow c (unwired s c node)
  unfolding unwired
  unwired-IsSameRow c node = ground arith

  pub replace_node-IsSameRow :
      (c : Cluster) (node : Node) (target : Text) (force : Bool)
      → IsSameRow c (replace_node s c node target force).0
  unfolding replace_node rebuild_node
  replace_node-IsSameRow c node target force =
      let c1 = unwired s c node in
      let start : IsSameRow c c1 = unwired-IsSameRow c node in
      let made =
        IsSameRow-trans c c1 (recreate_node_vm s c1 node target force).0 start
          (recreate-IsSameRow c1 node target force) in
      let done = returned-IsSameRow c node (recreate_node_vm s c1 node target force) made in
      ground arith

  pub roll_one_node-IsSameRow :
      (c : Cluster) (target : Text) → IsSameRow c (roll_one_node s c target).0
  unfolding roll_one_node
  roll_one_node-IsSameRow c target = elim (Option-cases (next_node_to_roll c.nodes target)) [
    | inl end_ ↦ simp (roll_one_node, end_) (refl, refl, refl, refl)
    | inr (n, found) ↦ simp (roll_one_node, found) (replace_node-IsSameRow c n target false)
  ]

  module _ (p : EtcdSnapshotPolicy) (now : Time) where
    restored-IsSameRow :
        (c : Cluster) (node : Node) (m : Memory) → IsSameRow c (restore_snapshot s p now c node m).0
    unfolding restore_snapshot restore_payload
    restored-IsSameRow c node m = ground arith

    onto-IsSameRow :
        (c : Cluster) (node : Node) (m : Memory) (r : Cluster × Option (List ProvisionedNode))
        → IsSameRow c r.0
        → IsSameRow c (restore_onto s p now node m r).0
    unfolding restore_onto
    onto-IsSameRow c node m (d, none) h = h
    onto-IsSameRow c node m (d, some nodes) h =
        IsSameRow-trans c d (restore_snapshot s p now d (node_named d.nodes node.vm_name) m).0 h
          (restored-IsSameRow d (node_named d.nodes node.vm_name) m)

    pub run_repair_action-IsSameRow :
        (a : Option RepairAction) (c : Cluster) (node : Node) (m : Memory)
        → IsSameRow c (run_repair_action s p now a c node m).0
    unfolding run_repair_action repair_by_replacement repair_by_restore
    run_repair_action-IsSameRow none c node m = ground arith
    run_repair_action-IsSameRow (some RepairAction.power_on) c node m = ground arith
    run_repair_action-IsSameRow (some RepairAction.restart_kubelet) c node m = ground arith
    run_repair_action-IsSameRow (some RepairAction.rejoin) c node m = ground arith
    run_repair_action-IsSameRow (some RepairAction.replace) c node m =
        replace_node-IsSameRow c node (image_of c node) true
    run_repair_action-IsSameRow (some RepairAction.restore) c node m =
        let made = recreate-IsSameRow c node (image_of c node) true in
        let done =
          onto-IsSameRow c node m (recreate_node_vm s c node (image_of c node) true) made in
        ground arith
