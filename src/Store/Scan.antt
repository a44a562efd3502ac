-- ===== src/Store/Scan.antt =====
-- internal/store/store.go: the scans by which the reconciler finds its work.
use kaa_s_demo.Domain.Phase.{is_ready}
use kaa_s_demo.Domain.Cluster.{cert_renewal_due, needs_work, Cluster}
use kaa_s_demo.Go.Time.{before, Time}
use kaa_s_demo.Prelude.{true, none, some, ◌==◌, ◌||◌, false, if◌then◌else◌, not, Bool, List}
use kaa_s_demo.Store.Memory.{Memory}
use kaa_s_demo.Store.Table.{rows_where}

unfoldable pub clusters_needing_work : Memory → List Cluster
clusters_needing_work m = rows_where needs_work m.clusters

unfoldable pub clusters_due_cert_renewal : Memory → Time → List Cluster
clusters_due_cert_renewal m cutoff = rows_where (λ c. cert_renewal_due c cutoff) m.clusters

-- c.Phase != domain.PhaseReady || c.ObservedGeneration != c.Generation
abbrev pub is_busy : Cluster → Bool
is_busy c = not (is_ready c.phase) || not (c.observed_generation == c.generation)

unfoldable pub is_etcd_observation_due : Time → Cluster → Bool
is_etcd_observation_due cutoff c =
    if is_busy c then false else elim c.etcd [ none ↦ true | some e ↦ before e.observed_at cutoff ]

unfoldable pub clusters_due_etcd_maintenance : Memory → Time → List Cluster
clusters_due_etcd_maintenance m cutoff = rows_where (is_etcd_observation_due cutoff) m.clusters

unfoldable pub is_snapshot_due : Time → Cluster → Bool
is_snapshot_due cutoff c =
    if is_busy c then false else elim c.etcd_snapshot_at [ none ↦ true | some t ↦ before t cutoff ]

unfoldable pub clusters_due_etcd_snapshot : Memory → Time → List Cluster
clusters_due_etcd_snapshot m cutoff = rows_where (is_snapshot_due cutoff) m.clusters

unfoldable pub is_repair_due : Time → Cluster → Bool
is_repair_due cutoff c =
    if is_busy c
    then false
    else elim c.repair [ none ↦ true | some r ↦ before r.observed_at cutoff ]

unfoldable pub clusters_due_repair : Memory → Time → List Cluster
clusters_due_repair m cutoff = rows_where (is_repair_due cutoff) m.clusters
