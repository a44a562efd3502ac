-- ===== src/Store/Sound.antt =====
-- internal/store/store.go: the invariant of the in-memory store.
pub mod Log
pub mod Runs
use mathlib.Core.Path.{subst}
use kaa_s_demo.Prelude.Any.{All-append, All}
use kaa_s_demo.Prelude.Dict.{Dict, put, lookup}
use kaa_s_demo.Domain.Operation.{MetricsSnapshot, Operation}
use kaa_s_demo.Domain.Health.{HealthSnapshot}
use kaa_s_demo.Etcd.Snapshot.{EtcdSnapshot}
use kaa_s_demo.Prelude.{
  some_inj, text_eq_iff, ◌∙◌, sym, refl, arith, text_eq, ◌++◌, Bool-cases, Option-cases, some, ◌≡◌,
  List, Text,
}
use kaa_s_demo.Prelude.Dict.{replace, lookup, put, Dict, get}
use kaa_s_demo.Prelude.{[], ◌∷◌, none, some, inl, inr}
use kaa_s_demo.Store.Table.Valid.{
  IsTable, create_row-IsTable, update_row-IsTable, delete_row-IsTable, empty-IsTable,
}
use kaa_s_demo.Store.Memory.{
  Memory, cluster_id, no_clash, user_id, same_username, group_id, same_name, catalog_key,
  same_owner_and_name, new_memory, update_cluster_unless_superseded,
}
use kaa_s_demo.Store.Log.{bucket}

-- Each list stands under the cluster that its items are of.
abbrev pub IsFiled : {V : Type 0} → (V → Text) → List (Text × List V) → Type 0
IsFiled cluster_of l = All (λ e. All (λ v. cluster_of v ≡ e.0) e.1) l

-- Each row stands under the cluster that it is of.
abbrev pub IsOwn : {V : Type 0} → (V → Text) → List (Text × V) → Type 0
IsOwn cluster_of l = All (λ e. cluster_of e.1 ≡ e.0) l

abbrev pub operation_cluster : Operation → Text
operation_cluster op = op.cluster_id

abbrev pub snapshot_cluster : EtcdSnapshot → Text
snapshot_cluster s = s.cluster_id

abbrev pub metrics_cluster : MetricsSnapshot → Text
metrics_cluster s = s.cluster_id

abbrev pub health_cluster : HealthSnapshot → Text
health_cluster s = s.cluster_id

pub record IsSound (m : Memory) : Type 0 where
  pub clusters : IsTable cluster_id no_clash m.clusters
  pub users : IsTable user_id same_username m.users
  pub groups : IsTable group_id same_name m.groups
  pub catalogs : IsTable catalog_key same_owner_and_name m.catalogs
  pub operations : IsFiled operation_cluster m.operations.entries
  pub metrics : IsOwn metrics_cluster m.metrics.entries
  pub health : IsOwn health_cluster m.health.entries
  pub snapshots : IsFiled snapshot_cluster m.snapshots.entries

-- A property of all entries survives a write of an entry that has it, and gives that of any entry.
module _ {V : Type 0} (P : Text × V → Type 0) where
  replace-All :
      (k : Text) (v : V) (l : List (Text × V)) → P (k, v) → All P l → All P (replace k v l)
  unfolding replace
  replace-All k v [] p h = (p, tt)
  replace-All k v ((j, w) ∷ l) p h = elim (Bool-cases (text_eq j k)) [
    | inl same ↦ rw (same, replace) (p, h.1)
    | inr other ↦ rw (other, replace) (h.0, replace-All k v l p h.1)
  ]

  pub put-All :
      (d : Dict V) (k : Text) (v : V) → P (k, v) → All P d.entries → All P (put d k v).entries
  unfolding put
  put-All d k v p h = replace-All k v d.entries p h

  lookup-All : (k : Text) (v : V) (l : List (Text × V)) → All P l → lookup k l ≡ some v → P (k, v)
  unfolding lookup
  lookup-All k v [] h e = cc
  lookup-All k v ((j, w) ∷ l) h e = elim (Bool-cases (text_eq j k)) [
    | inl same ↦
        let found : some w ≡ some v = sym (rw same refl) ∙ e in
        subst (λ (i : Text). P (i, v)) ((text_eq_iff j k).0 same)
          (subst (λ (u : V). P (j, u)) (some_inj found) h.0)
    | inr other ↦ lookup-All k v l h.1 (sym (rw other refl) ∙ e)
  ]

  pub get-All : (d : Dict V) (k : Text) (v : V) → All P d.entries → get d k ≡ some v → P (k, v)
  unfolding get
  get-All d k v h e = lookup-All k v d.entries h e

-- The list that is filed under a cluster, the empty one included.
bucket-All :
    {V : Type 0} (cluster_of : V → Text) (d : Dict (List V)) (k : Text)
    → IsFiled cluster_of d.entries
    → All (λ v. cluster_of v ≡ k) (bucket d k)
unfolding bucket
bucket-All cluster_of d k h = elim (Option-cases (get d k)) [
  | inl e ↦ rw (bucket, e) tt
  | inr (l, e) ↦ rw (bucket, e) (get-All (λ e. All (λ v. cluster_of v ≡ e.0) e.1) d k l h e)
]

-- `d[k] = append(d[k], v)`
pub append-IsFiled :
    {V : Type 0} (cluster_of : V → Text) (d : Dict (List V)) (v : V)
    → IsFiled cluster_of d.entries
    → IsFiled cluster_of (put d (cluster_of v) (bucket d (cluster_of v) ++ v ∷ [])).entries
append-IsFiled cluster_of d v h =
    put-All (λ e. All (λ v. cluster_of v ≡ e.0) e.1) d (cluster_of v)
      (bucket d (cluster_of v) ++ v ∷ [])
      (All-append (λ w. cluster_of w ≡ cluster_of v) (bucket d (cluster_of v)) (v ∷ [])
        (bucket-All cluster_of d (cluster_of v) h) (refl, tt))
      h
