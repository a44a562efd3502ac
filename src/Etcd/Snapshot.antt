-- ===== src/Etcd/Snapshot.antt =====
-- internal/domain/etcdsnapshot.go: when a cluster is snapshotted, which snapshot a recovery uses, and
-- which ones are deleted. A text is a value that holds what it formats.
pub mod Newest
pub mod Sorted
pub mod Prune
use kaa_s_demo.Domain.Phase.{is_ready}
use kaa_s_demo.Domain.Cluster.{Cluster}
use mathlib.Core.List.{reverse}
use kaa_s_demo.Prelude.{
  ◌==◌, drop, ◌||◌, length, not, leb, if◌then◌else◌, ◌&&◌, List, Bool, Text, ℕ, Option, [], ◌∷◌,
  none, some, true, false, zero, suc,
}
use kaa_s_demo.Prelude.Int.{pos_part, ℤ, pos, ltb_ℤ, leb_ℤ}
use kaa_s_demo.Go.Time.{after, is_zero, Time, Duration, sub}

pub record EtcdSnapshot : Type 0 where
  pub id : Text
  pub cluster_id : Text
  pub taken_at : Time
  pub revision : ℤ
  pub hash : ℕ
  pub size_bytes : ℤ
  pub k8s_version : Text
  pub node_name : Text

unfoldable pub age : EtcdSnapshot → Time → Duration
age s now = sub now s.taken_at

pub record EtcdSnapshotPolicy : Type 0 where
  pub enabled : Bool
  pub interval : Duration
  pub retain : ℤ
  pub max_restore_age : Duration

unfoldable pub snapshot_due : EtcdSnapshotPolicy → Option Time → Time → Bool
snapshot_due p last now =
    p.enabled && elim last [ none ↦ true | some t ↦ is_zero t || leb_ℤ p.interval (sub now t) ]

-- Cluster.EtcdSnapshotDue
unfoldable pub etcd_snapshot_due : Cluster → EtcdSnapshotPolicy → Time → Bool
etcd_snapshot_due c p now =
    if not (is_ready c.phase) || not (c.observed_generation == c.generation)
    then false
    else snapshot_due p c.etcd_snapshot_at now

-- the loop over the other snapshots
unfoldable pub newest_of : EtcdSnapshot → List EtcdSnapshot → EtcdSnapshot
newest_of newest [] = newest
newest_of newest (s ∷ ss) = newest_of (if after s.taken_at newest.taken_at then s else newest) ss

pub data Restore : Type 0 where
  none_stored : Restore
  too_old : Duration → Duration → Restore
  restoring : EtcdSnapshot → Duration → Restore

unfoldable pub is_too_old : EtcdSnapshotPolicy → EtcdSnapshot → Time → Bool
is_too_old p s now = ltb_ℤ (pos 0) p.max_restore_age && ltb_ℤ p.max_restore_age (age s now)

unfoldable pub restorable_snapshot : List EtcdSnapshot → EtcdSnapshotPolicy → Time → Restore
restorable_snapshot [] p now = none_stored
restorable_snapshot (s ∷ ss) p now =
    let newest = newest_of s ss in
    if is_too_old p newest now
    then too_old (age newest now) p.max_restore_age
    else restoring newest (age newest now)

-- The inner loop of the insertion sort: the snapshot moves left past the older ones. The sorted part
-- is kept from its right end to its left.
unfoldable pub sink : EtcdSnapshot → List EtcdSnapshot → List EtcdSnapshot
sink x [] = x ∷ []
sink x (y ∷ ys) =
    let rest = sink x ys in if after x.taken_at y.taken_at then y ∷ rest else x ∷ y ∷ ys

-- the outer loop, from the right end again
unfoldable pub sort_onto : List EtcdSnapshot → List EtcdSnapshot → List EtcdSnapshot
sort_onto done [] = done
sort_onto done (x ∷ xs) = sort_onto (sink x done) xs

-- the sorted slice, newest first
unfoldable pub newest_first : List EtcdSnapshot → List EtcdSnapshot
newest_first snaps = reverse (sort_onto [] snaps)

-- a Retain below 1 is clamped
unfoldable pub retained : EtcdSnapshotPolicy → ℕ
retained p = if ltb_ℤ p.retain (pos 1) then 1 else pos_part p.retain

unfoldable pub prune_etcd_snapshots : EtcdSnapshotPolicy → List EtcdSnapshot → List EtcdSnapshot
prune_etcd_snapshots p snaps =
    if leb (length snaps) (retained p) then [] else drop (retained p) (newest_first snaps)
