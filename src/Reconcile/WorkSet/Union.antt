-- ===== src/Reconcile/WorkSet/Union.antt =====
-- internal/reconcile/reconcile.go: the union of the scans has each cluster that is due once.
use kaa_s_demo.Store.Table.{rows_where}
use kaa_s_demo.Go.Time.{Time}
use kaa_s_demo.Domain.Cluster.{cert_renewal_due, needs_work, Cluster}
use kaa_s_demo.Prelude.Keys.{IsDistinct, has}
use kaa_s_demo.Prelude.{
  Option, ◌&&◌, Bool, Bool-cases, text_eq_iff, arith, sym, ◌||◌, ◌∙◌, refl, map, ◌++◌, ◌≡◌, Text,
  List, [], ◌∷◌, none, some, inl, inr, true, false,
}
use kaa_s_demo.Store.Memory.{Memory, cluster_id, no_clash, get_cluster}
use kaa_s_demo.Store.Scan.{
  clusters_needing_work, clusters_due_cert_renewal, clusters_due_etcd_maintenance,
  clusters_due_etcd_snapshot, clusters_due_repair, is_etcd_observation_due, is_snapshot_due,
  is_repair_due,
}
use kaa_s_demo.Store.Find.{ids, passes, has-rows_where, rows_where-IsDistinct}
use kaa_s_demo.Store.Requests.{Reached}
use kaa_s_demo.Store.Sound.{IsSound}
use kaa_s_demo.Store.Sound.Runs.{Reached-IsSound}
use kaa_s_demo.Reconcile.WorkSet.{
  add, negate, Schedule, cert_renew_enabled, cert_renew_cutoff, add_due, add_if, work_set, is_work,
}

has-append : (xs ys : List Text) (k : Text) → has (xs ++ ys) k ≡ (has xs k || has ys k)
unfolding has
has-append [] ys k = refl
has-append (x ∷ xs) ys k = ground (arith, has-append xs ys k)

append-IsDistinct :
    (xs : List Text) (k : Text) → IsDistinct xs → has xs k ≡ false → IsDistinct (xs ++ k ∷ [])
unfolding has
append-IsDistinct [] k h new = (refl, tt)
append-IsDistinct (x ∷ xs) k h new = (
  has-append xs (k ∷ []) x ∙ ground (arith, text_eq_iff x k, text_eq_iff k x, h.0),
  append-IsDistinct xs k h.1 (ground arith),
)

ids-append :
    (xs ys : List Cluster) → map cluster_id (xs ++ ys) ≡ map cluster_id xs ++ map cluster_id ys
ids-append [] ys = refl
ids-append (x ∷ xs) ys = rw (ids-append xs ys) refl

-- What is seen is what is in the work so far, and nothing of it stands twice.
abbrev pub IsSeen : List Text × List Cluster → Type 0
IsSeen (seen, work) =
    ((k : Text) → has seen k ≡ has (map cluster_id work) k) × IsDistinct (map cluster_id work)

IsSeen-append :
    (seen : List Text) (work : List Cluster) (c : Cluster)
    → has seen c.id ≡ false
    → IsSeen (seen, work)
    → IsSeen (c.id ∷ seen, work ++ c ∷ [])
unfolding has
IsSeen-append seen work c new (same, distinct) = (
  λ k.
      rw (ids-append work (c ∷ []))
        (ground (arith, has-append (map cluster_id work) (c.id ∷ []) k, same k)),
  rw (ids-append work (c ∷ []))
      (append-IsDistinct (map cluster_id work) c.id distinct (sym (same c.id) ∙ new)),
)

add_due_lem :
    (seen : List Text) (work cs : List Cluster)
    → IsSeen (seen, work)
    → IsSeen (add_due seen work cs)
      × ((k : Text)
          → has (map cluster_id (add_due seen work cs).1) k
            ≡ (has (map cluster_id work) k || has (map cluster_id cs) k))
unfolding add_due has
add_due_lem seen work [] h = (h, λ k. ground arith)
add_due_lem seen work (c ∷ cs) h = elim (Bool-cases (has seen c.id)) [
  | inl old ↦
      let (h', e) = add_due_lem seen work cs h in
      rw (old, add_due) (h', λ k. e k ∙ ground (arith, h.0 k, h.0 c.id, text_eq_iff c.id k))
  | inr new ↦
      let (h', e) =
        add_due_lem (c.id ∷ seen) (work ++ c ∷ []) cs (IsSeen-append seen work c new h) in
      rw (new, add_due)
        (
          h',
          λ k.
              e k
              ∙ rw (ids-append work (c ∷ []), has-append (map cluster_id work) (c.id ∷ []) k)
                  (unfold has in ground arith),
        )
]

add_if_lem :
    (enabled : Bool) (cs : List Cluster) (w : List Text × List Cluster)
    → IsSeen w
    → IsSeen (add_if enabled cs w)
      × ((k : Text)
          → has (map cluster_id (add_if enabled cs w).1) k
            ≡ (has (map cluster_id w.1) k || (enabled && has (map cluster_id cs) k)))
unfolding add_if
add_if_lem true cs (seen, work) h = add_due_lem seen work cs h
add_if_lem false cs (seen, work) h = (h, λ k. ground arith)

module _ {F : Type 0} (s : Schedule F) (m : Memory) (now : Time) (sound : IsSound m) where
  listed :
      (test : Cluster → Bool) (k : Text)
      → has (map cluster_id (rows_where test m.clusters)) k ≡ passes test (get_cluster m k)
  unfolding ids get_cluster
  listed test k = has-rows_where cluster_id test no_clash m.clusters sound.clusters k

  first-IsSeen : IsSeen (map cluster_id (clusters_needing_work m), clusters_needing_work m)
  unfolding clusters_needing_work ids
  first-IsSeen =
      (λ k. refl, rows_where-IsDistinct cluster_id needs_work no_clash m.clusters sound.clusters)

  split_work :
      (o : Option Cluster)
      → passes (is_work s now) o ≡ (
          (((passes needs_work o
                || (cert_renew_enabled s
                    && passes (λ c. cert_renewal_due c (cert_renew_cutoff s now)) o))
              || (s.etcd_policy.enabled
                  && passes
                      (is_etcd_observation_due (add now (negate s.etcd_policy.observe_interval)))
                      o))
            || (s.snapshot_policy.enabled
                && passes (is_snapshot_due (add now (negate s.snapshot_policy.interval))) o))
          || (s.repair_policy.enabled
              && passes (is_repair_due (add now (negate s.repair_policy.observe_interval))) o))
  unfolding is_work
  split_work none = ground arith
  split_work (some c) = ground arith

  union_lem :
      IsDistinct (map cluster_id (work_set s m now))
      × ((k : Text)
          → has (map cluster_id (work_set s m now)) k ≡ passes (is_work s now) (get_cluster m k))
  unfolding work_set clusters_needing_work clusters_due_cert_renewal clusters_due_etcd_maintenance
      clusters_due_etcd_snapshot clusters_due_repair
  union_lem =
      let (h0, e0) =
        add_if_lem (cert_renew_enabled s) (clusters_due_cert_renewal m (cert_renew_cutoff s now))
          (map cluster_id (clusters_needing_work m), clusters_needing_work m) first-IsSeen in
      let (h1, e1) =
        add_if_lem s.etcd_policy.enabled
          (clusters_due_etcd_maintenance m (add now (negate s.etcd_policy.observe_interval))) _
          h0 in
      let (h2, e2) =
        add_if_lem s.snapshot_policy.enabled
          (clusters_due_etcd_snapshot m (add now (negate s.snapshot_policy.interval))) _ h1 in
      let (h3, e3) =
        add_if_lem s.repair_policy.enabled
          (clusters_due_repair m (add now (negate s.repair_policy.observe_interval))) _ h2 in
      (
        h3.1,
        λ k.
            e3 k
            ∙ joined s.repair_policy.enabled
                (e2 k
                  ∙ joined s.snapshot_policy.enabled
                      (e1 k
                        ∙ joined s.etcd_policy.enabled
                            (e0 k ∙ joined (cert_renew_enabled s) (needing k) (cert k)) (etcd k))
                      (snapshot k))
                (repair k)
            ∙ sym (split_work (get_cluster m k)),
      )
    where
      joined : (e : Bool) {a b c d : Bool} → a ≡ c → b ≡ d → (a || (e && b)) ≡ (c || (e && d))
      joined e p q = rw (p, q) refl

      needing :
          (k : Text)
          → has (map cluster_id (clusters_needing_work m)) k ≡ passes needs_work (get_cluster m k)
      needing k = listed needs_work k

      cert :
          (k : Text)
          → has (map cluster_id (clusters_due_cert_renewal m (cert_renew_cutoff s now))) k
            ≡ passes (λ c. cert_renewal_due c (cert_renew_cutoff s now)) (get_cluster m k)
      cert k = listed (λ c. cert_renewal_due c (cert_renew_cutoff s now)) k

      etcd :
          (k : Text)
          → has
              (map cluster_id
                (clusters_due_etcd_maintenance m (add now (negate s.etcd_policy.observe_interval))))
              k
            ≡ passes
                (is_etcd_observation_due (add now (negate s.etcd_policy.observe_interval)))
                (get_cluster m k)
      etcd k = listed (is_etcd_observation_due (add now (negate s.etcd_policy.observe_interval))) k

      snapshot :
          (k : Text)
          → has
              (map cluster_id
                (clusters_due_etcd_snapshot m (add now (negate s.snapshot_policy.interval))))
              k
            ≡ passes
                (is_snapshot_due (add now (negate s.snapshot_policy.interval)))
                (get_cluster m k)
      snapshot k = listed (is_snapshot_due (add now (negate s.snapshot_policy.interval))) k

      repair :
          (k : Text)
          → has
              (map cluster_id
                (clusters_due_repair m (add now (negate s.repair_policy.observe_interval))))
              k
            ≡ passes
                (is_repair_due (add now (negate s.repair_policy.observe_interval)))
                (get_cluster m k)
      repair k = listed (is_repair_due (add now (negate s.repair_policy.observe_interval))) k

-- In a state of the store that is reached, the work of a tick has no cluster twice, and has the id of
-- a cluster exactly if the cluster is stored and it needs work or an enabled schedule finds it due.
pub work_set-is_work :
    {F : Type 0} (s : Schedule F) {m : Memory} (now : Time)
    → Reached m
    → IsDistinct (map cluster_id (work_set s m now))
      × ((k : Text)
          → has (map cluster_id (work_set s m now)) k ≡ passes (is_work s now) (get_cluster m k))
work_set-is_work s {m} now r = union_lem s m now (Reached-IsSound r)
