-- ===== src/Etcd/Snapshot/Prune.antt =====
-- internal/domain/etcdsnapshot.go: which snapshots are deleted.
use mathlib.Core.Path.{subst}
use mathlib.Core.List.{Mem, Perm, Pairwise-append}
use native.Mathlib.Bridge.{le_prop}
use kaa_s_demo.Prelude.{
  sym, ◌∙◌, length-take, take-append-drop, arith, false, ◌≤◌, leb, ◌++◌, ◌≡◌, ◌<◌, List, take, drop,
  length,
}
use kaa_s_demo.Etcd.Snapshot.{
  EtcdSnapshot, EtcdSnapshotPolicy, prune_etcd_snapshots, retained, newest_first,
}
use kaa_s_demo.Etcd.Snapshot.Sorted.{
  length-newest_first, Falling, newest_first-Falling, newest_first_perm,
}

-- the snapshots that survive
abbrev pub survivors : EtcdSnapshotPolicy → List EtcdSnapshot → List EtcdSnapshot
survivors p snaps = take (retained p) (newest_first snaps)

prunes_rest :
    (p : EtcdSnapshotPolicy) (snaps : List EtcdSnapshot)
    → retained p < length snaps
    → prune_etcd_snapshots p snaps ≡ drop (retained p) (newest_first snaps)
unfolding prune_etcd_snapshots
prunes_rest p snaps h =
    let more : leb (length snaps) (retained p) ≡ false = ground arith in simp (more)

-- When more snapshots are stored than are retained, the survivors and the deleted ones are together
-- what was stored, the survivors are as many as are retained, at least one, and no deleted snapshot
-- is newer than a survivor.
pub prune_keeps_newest :
    (p : EtcdSnapshotPolicy) (snaps : List EtcdSnapshot)
    → retained p < length snaps
    → Perm (survivors p snaps ++ prune_etcd_snapshots p snaps) snaps
      × (length (survivors p snaps) ≡ retained p)
      × (0 < retained p)
      × ((a : EtcdSnapshot)
          → Mem a (survivors p snaps)
          → (b : EtcdSnapshot) → Mem b (prune_etcd_snapshots p snaps)
          → b.taken_at ≤ a.taken_at)
unfolding retained
prune_keeps_newest p snaps h = rw (prunes_rest p snaps h) (
  rw (take-append-drop (retained p) (newest_first snaps)) (newest_first_perm snaps),
  length-take (retained p) (newest_first snaps) ∙ ground (arith, length-newest_first snaps),
  ground arith,
  ((Pairwise-append {R = λ (a b : EtcdSnapshot). b.taken_at ≤ a.taken_at} (λ a b. le_prop)
        {l₁ = take (retained p) (newest_first snaps)}
        {l₂ = drop (retained p) (newest_first snaps)}).0
      parted).2,
)
  where
    parted :
        Falling (take (retained p) (newest_first snaps) ++ drop (retained p) (newest_first snaps))
    parted =
        subst Falling (sym (take-append-drop (retained p) (newest_first snaps)))
          (newest_first-Falling snaps)
