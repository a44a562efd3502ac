-- ===== src/Reconcile/WorkSet.antt =====
-- internal/reconcile/reconcile.go: the clusters that a tick works on, from the scans of the store.
-- The clock is an argument; the in-memory store's scans do not fail.
pub mod Union
use kaa_s_demo.Prelude.Keys.{has}
use kaa_s_demo.Domain.Cluster.{cert_renewal_due, needs_work, Cluster}
use kaa_s_demo.Go.Time.{Duration, Time}
use kaa_s_demo.Prelude.{
  ◌&&◌, ◌++◌, ◌||◌, map, ◌-◌, if◌then◌else◌, ◌+◌, Text, Bool, List, [], ◌∷◌, none, some, inl, inr,
  true, false,
}
use kaa_s_demo.Store.Memory.{Memory, cluster_id, no_clash}
use kaa_s_demo.Store.Scan.{
  clusters_needing_work, clusters_due_cert_renewal, clusters_due_etcd_maintenance,
  clusters_due_etcd_snapshot, clusters_due_repair, is_etcd_observation_due, is_snapshot_due,
  is_repair_due,
}
use kaa_s_demo.Store.Find.{ids, passes, has-rows_where, rows_where-IsDistinct}
use kaa_s_demo.Store.Requests.{Reached}
use kaa_s_demo.Store.Sound.Runs.{Reached-IsSound}
use kaa_s_demo.Repair.{RepairPolicy}
use kaa_s_demo.Etcd.Snapshot.{EtcdSnapshotPolicy}
use kaa_s_demo.Etcd.Defrag.{EtcdDefragPolicy}
use kaa_s_demo.Prelude.Int.{ℤ, ◌+ℤ◌, pos, negsuc, pos_part, neg_part, sub_ℕ, ltb_ℤ}

-- t.Add(d); an instant before Go's zero time is the zero time
unfoldable pub add : Time → Duration → Time
add t d = t + pos_part d - neg_part d

-- -d
unfoldable pub negate : Duration → Duration
negate d = sub_ℕ (neg_part d) (pos_part d)

-- The fields of Reconciler that choose the scans.
pub record Schedule (F : Type 0) : Type 0 where
  pub cert_renew_window : Duration
  pub etcd_policy : EtcdDefragPolicy F
  pub snapshot_policy : EtcdSnapshotPolicy
  pub repair_policy : RepairPolicy F

unfoldable pub cert_renew_enabled : {F : Type 0} → Schedule F → Bool
cert_renew_enabled s = ltb_ℤ (pos 0) s.cert_renew_window

unfoldable pub cert_renew_cutoff : {F : Type 0} → Schedule F → Time → Time
cert_renew_cutoff s now = add now s.cert_renew_window

-- the closure `add`: what is seen, and the work so far
unfoldable pub add_due : List Text → List Cluster → List Cluster → List Text × List Cluster
add_due seen work [] = (seen, work)
add_due seen work (c ∷ cs) =
    add_due (if has seen c.id then seen else c.id ∷ seen)
      (if has seen c.id then work else work ++ c ∷ []) cs

-- if enabled { due := …; add(due) }
unfoldable pub add_if : Bool → List Cluster → List Text × List Cluster → List Text × List Cluster
add_if enabled due (seen, work) = if enabled then add_due seen work due else (seen, work)

unfoldable pub work_set : {F : Type 0} → Schedule F → Memory → Time → List Cluster
work_set s m now =
    let first = clusters_needing_work m in
    (add_if s.repair_policy.enabled
      (clusters_due_repair m (add now (negate s.repair_policy.observe_interval)))
      (add_if s.snapshot_policy.enabled
        (clusters_due_etcd_snapshot m (add now (negate s.snapshot_policy.interval)))
        (add_if s.etcd_policy.enabled
          (clusters_due_etcd_maintenance m (add now (negate s.etcd_policy.observe_interval)))
          (add_if (cert_renew_enabled s) (clusters_due_cert_renewal m (cert_renew_cutoff s now))
            (map cluster_id first, first))))).1

-- what makes a stored cluster work for the tick
unfoldable pub is_work : {F : Type 0} → Schedule F → Time → Cluster → Bool
is_work s now c =
    needs_work c
    || (cert_renew_enabled s && cert_renewal_due c (cert_renew_cutoff s now))
    || (s.etcd_policy.enabled
        && is_etcd_observation_due (add now (negate s.etcd_policy.observe_interval)) c)
    || (s.snapshot_policy.enabled
        && is_snapshot_due (add now (negate s.snapshot_policy.interval)) c)
    || (s.repair_policy.enabled
        && is_repair_due (add now (negate s.repair_policy.observe_interval)) c)
