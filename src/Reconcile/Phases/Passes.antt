-- ===== src/Reconcile/Phases/Passes.antt =====
-- internal/reconcile/reconcile.go: the passes of a tick keep the row, and the phases that follow a phase.
use kaa_s_demo.Prelude.Any.{All}
use kaa_s_demo.Domain.Cluster.{Cluster}
use kaa_s_demo.Prelude.{◌≡◌, arith, Bool, List, [], ◌∷◌, true, false}
use kaa_s_demo.Reconcile.Act.{Act, Ensures, bind-Ensures}
use kaa_s_demo.Reconcile.Seams.{Seams}
use kaa_s_demo.Reconcile.Wiring.Kept.{
  IsSameRow, IsSameRow-trans, addons-IsSameRow, monitoring-IsSameRow, gateway-IsSameRow,
  dns-IsSameRow, vault-IsSameRow, registry-IsSameRow, storage-IsSameRow,
}
use kaa_s_demo.Reconcile.Steps.{converge_passes, run_passes, converge_cluster}
use kaa_s_demo.Domain.Phase.{Phase}

pub run_passes-IsSameRow :
    (fs : List (Cluster → Act Cluster))
    → All (λ f. (c : Cluster) → Ensures (IsSameRow c) (f c)) fs
    → (c : Cluster) → Ensures (IsSameRow c) (run_passes fs c)
unfolding run_passes
run_passes-IsSameRow [] h c m d e = ground arith
run_passes-IsSameRow (f ∷ fs) h c m d e =
    bind-Ensures (IsSameRow c) (IsSameRow c) (f c) (λ c'. run_passes fs c') (h.0 c)
      (λ c1 same m d e. IsSameRow-trans c c1 d same (run_passes-IsSameRow fs h.1 c1 m d e)) m d e

pub converge_passes-All :
    (s : Seams) → All (λ f. (c : Cluster) → Ensures (IsSameRow c) (f c)) (converge_passes s)
unfolding converge_passes
converge_passes-All s = (
  addons-IsSameRow s,
  (
    monitoring-IsSameRow s,
    (
      gateway-IsSameRow s,
      (dns-IsSameRow s, (vault-IsSameRow s, (registry-IsSameRow s, (storage-IsSameRow s, tt)))),
    ),
  ),
)

pub converge-IsSameRow : (s : Seams) (c : Cluster) → Ensures (IsSameRow c) (converge_cluster s c)
unfolding converge_cluster
converge-IsSameRow s c = run_passes-IsSameRow (converge_passes s) (converge_passes-All s) c

-- the phase after a tick that succeeds
abbrev pub may_follow : Phase → Phase → Bool
may_follow Phase.pending Phase.provisioning_infra = true
may_follow Phase.provisioning_infra Phase.infra_ready = true
may_follow Phase.infra_ready Phase.control_plane_ready = true
may_follow Phase.control_plane_ready Phase.workers_ready = true
may_follow Phase.workers_ready Phase.installing_addons = true
may_follow Phase.installing_addons Phase.ready = true
may_follow Phase.ready Phase.ready = true
may_follow Phase.ready Phase.upgrading = true
may_follow Phase.ready Phase.updating = true
may_follow Phase.ready Phase.repairing = true
may_follow Phase.ready Phase.renewing_certs = true
may_follow Phase.ready Phase.snapshotting_etcd = true
may_follow Phase.ready Phase.defragmenting_etcd = true
may_follow Phase.updating Phase.ready = true
may_follow Phase.upgrading Phase.upgrading = true
may_follow Phase.upgrading Phase.ready = true
may_follow Phase.renewing_certs Phase.ready = true
may_follow Phase.defragmenting_etcd Phase.ready = true
may_follow Phase.snapshotting_etcd Phase.ready = true
may_follow Phase.repairing Phase.ready = true
may_follow Phase.deleting Phase.deleted = true
may_follow Phase.deleted Phase.deleted = true
may_follow Phase.failed Phase.failed = true
may_follow _ _ = false

-- The phase follows, and the row keeps its id and its generation.
abbrev pub IsTickOf : Phase → Cluster → Cluster → Type 0
IsTickOf q c d = (may_follow q d.phase ≡ true) × (d.id ≡ c.id) × (d.generation ≡ c.generation)
