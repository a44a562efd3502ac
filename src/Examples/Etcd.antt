-- ===== src/Examples/Etcd.antt =====
-- Etcd: the theorems at concrete inputs, and tests of the definitions.
use mathlib.Core.List.{Mem, Perm}
use kaa_s_demo.Prelude.{
  ◌⊎◌, ◌≤◌, arith, ◌↔◌, length, ◌≡◌, ◌<◌, Text, List, ◌++◌, [], ◌∷◌, refl, true, false, none,
}
use kaa_s_demo.Prelude.Int.{◌≤ℤ◌, pos}
use kaa_s_demo.Go.Float.{Fraction, fractions}
use kaa_s_demo.Go.Time.{sub, is_zero, Time, hour, day}
use kaa_s_demo.Domain.Observed.{EtcdStatus}
use kaa_s_demo.Maintenance.{LocalTime, allows, no_window}
use kaa_s_demo.Etcd.Defrag.{
  EtcdDefragPolicy, defrag_due, defrag_due_iff, has_alarm, alarm_no_space, fragmentation_ratio,
  defragged_recently,
}
use kaa_s_demo.Etcd.Snapshot.{
  sink, sort_onto, age, newest_first, newest_of, is_too_old, EtcdSnapshot, EtcdSnapshotPolicy,
  prune_etcd_snapshots, retained, restorable_snapshot, restoring,
}
use kaa_s_demo.Etcd.Snapshot.Newest.{restores_newest, NoneNewer}
use kaa_s_demo.Etcd.Snapshot.Prune.{prune_keeps_newest, survivors}

abbrev pub status : EtcdStatus
status = record {
  db_bytes = pos 400000000;
  db_in_use_bytes = pos 100000000;
  quota_bytes = pos 0;
  alarms = [];
  members = pos 1;
  observed_at = 5;
  defragged_at = none;
}

abbrev pub defrag_policy : EtcdDefragPolicy Fraction
defrag_policy = record {
  enabled = true;
  observe_interval = hour;
  min_ratio = record { over = pos 45; under = pos 100 };
  min_bytes = pos 104857600;
  min_interval = day;
  window = no_window;
}

abbrev pub midnight : Text → Time → LocalTime
midnight zone t = record { hour = 0; minute = 0; weekday = 0 }

defrag_due_iff_example :
    ((defrag_due fractions midnight defrag_policy status (pos 1) 7).0 ≡ true) ↔ (
      (defrag_policy.enabled ≡ true)
      × (is_zero status.observed_at ≡ false)
      × (pos 1 ≤ℤ status.members)
      × ((has_alarm status alarm_no_space ≡ true)
          ⊎ ((defrag_policy.min_bytes ≤ℤ status.db_bytes)
              × (fractions.exceeds defrag_policy.min_ratio (fragmentation_ratio fractions status)
                  ≡ false)
              × (defragged_recently status defrag_policy.min_interval 7 ≡ false)
              × (allows midnight defrag_policy.window 7 ≡ true))))
defrag_due_iff_example = defrag_due_iff fractions midnight defrag_policy status (pos 1) 7

abbrev pub snapshot : Time → EtcdSnapshot
snapshot t = record {
  id = [];
  cluster_id = [];
  taken_at = t;
  revision = pos t;
  hash = 0;
  size_bytes = pos 1;
  k8s_version = [];
  node_name = [];
}

abbrev stored : List EtcdSnapshot
stored = snapshot 10 ∷ snapshot 30 ∷ snapshot 20 ∷ []

abbrev pub snapshot_policy : EtcdSnapshotPolicy
snapshot_policy = record { enabled = true; interval = hour; retain = pos 2; max_restore_age = day }

prunes_oldest : prune_etcd_snapshots snapshot_policy stored ≡ snapshot 10 ∷ []
unfolding prune_etcd_snapshots newest_first sort_onto sink retained
prunes_oldest = refl

two_retained : retained snapshot_policy < length stored
unfolding retained
two_retained = omega arith

prune_keeps_newest_example :
    Perm (survivors snapshot_policy stored ++ prune_etcd_snapshots snapshot_policy stored) stored
    × (length (survivors snapshot_policy stored) ≡ retained snapshot_policy)
    × (0 < retained snapshot_policy)
    × ((a : EtcdSnapshot)
        → Mem a (survivors snapshot_policy stored)
        → (b : EtcdSnapshot) → Mem b (prune_etcd_snapshots snapshot_policy stored)
        → b.taken_at ≤ a.taken_at)
prune_keeps_newest_example = prune_keeps_newest snapshot_policy stored two_retained

restores_thirty : restorable_snapshot stored snapshot_policy 35 ≡ restoring (snapshot 30) (pos 5)
unfolding restorable_snapshot newest_of is_too_old age sub
restores_thirty = refl

restores_newest_example :
    Mem (snapshot 30) stored
    × NoneNewer (snapshot 30) stored
    × (is_too_old snapshot_policy (snapshot 30) 35 ≡ false)
    × (pos 5 ≡ age (snapshot 30) 35)
restores_newest_example =
    restores_newest stored snapshot_policy 35 (snapshot 30) (pos 5) restores_thirty
