-- ===== src/Store/Sound/Runs.antt =====
-- internal/store/store.go: the invariant of the in-memory store over every sequence of writes.
use kaa_s_demo.Go.Time.{Time}
use mathlib.Core.Path.{subst}
use kaa_s_demo.Domain.User.{User}
use kaa_s_demo.Domain.Group.{CustomCatalog, Group}
use kaa_s_demo.Prelude.Dict.{get, empty}
use kaa_s_demo.Domain.Cluster.{Cluster}
use kaa_s_demo.Prelude.{
  sym, ℕ, ◌==◌, text_eq_iff, Bool-cases, arith, Option-cases, refl, text_eq, ◌≡◌, Text, inl, inr,
}
use kaa_s_demo.Store.Table.Valid.{
  create_row-IsTable, update_row-IsTable, delete_row-IsTable, empty-IsTable, put-IsTable,
}
use kaa_s_demo.Store.Memory.{
  Memory, cluster_id, no_clash, user_id, same_username, group_id, same_name, catalog_key,
  same_owner_and_name, new_memory, update_cluster_unless_superseded, create_cluster, update_cluster,
  create_user, update_user, delete_user, create_group, update_group, delete_group,
  create_custom_catalog, update_custom_catalog, delete_custom_catalog,
}
use kaa_s_demo.Store.Log.{
  complete_in, save_secret, record_operation, save_metrics, save_health, save_etcd_snapshot,
  delete_etcd_snapshot, complete_operations, complete_operation,
}
use kaa_s_demo.Store.Requests.{Request, serve, Reached}
use kaa_s_demo.Store.Sound.{
  IsSound, metrics_cluster, health_cluster, operation_cluster, snapshot_cluster, put-All,
  append-IsFiled,
}
use kaa_s_demo.Store.Sound.Log.{complete_in-IsFiled, swept-IsFiled, drop_in-IsFiled}

text_eq_sym : (a b : Text) → text_eq a b ≡ text_eq b a
text_eq_sym a b = ground (arith, text_eq_iff a b, text_eq_iff b a)

clusters_sym : (c d : Cluster) → no_clash c d ≡ no_clash d c
clusters_sym c d = refl

users_sym : (u v : User) → same_username u v ≡ same_username v u
users_sym u v = text_eq_sym u.username v.username

groups_sym : (g h : Group) → same_name g h ≡ same_name h g
groups_sym g h = text_eq_sym g.name h.name

catalogs_sym : (c d : CustomCatalog) → same_owner_and_name c d ≡ same_owner_and_name d c
catalogs_sym c d = rw (text_eq_sym c.owner_id d.owner_id, text_eq_sym c.name d.name) refl

new_memory-IsSound : IsSound new_memory
unfolding new_memory
new_memory-IsSound = record {
  clusters = empty-IsTable cluster_id no_clash;
  users = empty-IsTable user_id same_username;
  groups = empty-IsTable group_id same_name;
  catalogs = empty-IsTable catalog_key same_owner_and_name;
  operations = unfold empty in tt;
  metrics = unfold empty in tt;
  health = unfold empty in tt;
  snapshots = unfold empty in tt;
}

-- a write of the reconciler is a write of a cluster that is there
superseded-IsSound :
    (m : Memory) (c : Cluster) → IsSound m → IsSound (update_cluster_unless_superseded m c).0
unfolding update_cluster_unless_superseded
superseded-IsSound m c h = elim (Option-cases (get m.clusters c.id)) [
  | inl missing ↦ rw (update_cluster_unless_superseded, missing) h
  | inr (old, found) ↦ elim (Bool-cases (old.generation == c.generation)) [
    | inr newer ↦ rw (update_cluster_unless_superseded, found, newer) h
    | inl same ↦
        rw (update_cluster_unless_superseded, found, same)
          (ground (
            arith,
            put-IsTable cluster_id no_clash clusters_sym m.clusters c h.clusters (λ k w _ _. refl),
          ))
  ]
]

swept-IsSound :
    (m : Memory) (cluster : Text) (through : ℕ) (at : Time)
    → IsSound m
    → IsSound (complete_operations m cluster through at)
unfolding complete_operations
swept-IsSound m cluster through at h = elim (Option-cases (get m.operations cluster)) [
  | inl e ↦ rw (complete_operations, e) h
  | inr (ops, e) ↦
      rw (complete_operations, e)
        (ground (arith, swept-IsFiled m.operations cluster through at ops h.operations e))
]

completed-IsSound :
    (m : Memory) (id detail : Text) (at : Time)
    → IsSound m
    → IsSound (complete_operation m id detail at).0
unfolding complete_operation
completed-IsSound m id detail at h =
    elim (Option-cases (complete_in id detail at m.operations.entries)) [
      | inl missing ↦ rw (complete_operation, missing) h
      | inr (l, found) ↦
          rw (complete_operation, found)
            (ground
              (arith, complete_in-IsFiled id detail at m.operations.entries l found h.operations))
    ]

serve-IsSound : (m : Memory) (r : Request) → IsSound m → IsSound (serve m r)
unfolding serve create_cluster update_cluster create_user update_user delete_user create_group
    update_group delete_group create_custom_catalog update_custom_catalog delete_custom_catalog
    save_secret record_operation save_metrics save_health save_etcd_snapshot delete_etcd_snapshot
serve-IsSound m (Request.creates_cluster c) h =
    ground (arith, create_row-IsTable cluster_id no_clash clusters_sym m.clusters c h.clusters)
serve-IsSound m (Request.updates_cluster c) h =
    ground (arith, update_row-IsTable cluster_id no_clash clusters_sym m.clusters c h.clusters)
serve-IsSound m (Request.updates_unless_superseded c) h = superseded-IsSound m c h
serve-IsSound m (Request.creates_user u) h =
    ground (arith, create_row-IsTable user_id same_username users_sym m.users u h.users)
serve-IsSound m (Request.updates_user u) h =
    ground (arith, update_row-IsTable user_id same_username users_sym m.users u h.users)
serve-IsSound m (Request.deletes_user id) h =
    ground (arith, delete_row-IsTable user_id same_username users_sym m.users id h.users)
serve-IsSound m (Request.creates_group g) h =
    ground (arith, create_row-IsTable group_id same_name groups_sym m.groups g h.groups)
serve-IsSound m (Request.updates_group g) h =
    ground (arith, update_row-IsTable group_id same_name groups_sym m.groups g h.groups)
serve-IsSound m (Request.deletes_group id) h =
    ground (arith, delete_row-IsTable group_id same_name groups_sym m.groups id h.groups)
serve-IsSound m (Request.creates_catalog c) h =
    ground (
      arith,
      create_row-IsTable catalog_key same_owner_and_name catalogs_sym m.catalogs c h.catalogs,
    )
serve-IsSound m (Request.updates_catalog c) h =
    ground (
      arith,
      update_row-IsTable catalog_key same_owner_and_name catalogs_sym m.catalogs c h.catalogs,
    )
serve-IsSound m (Request.deletes_catalog id) h = ground (
  arith,
  delete_row-IsTable catalog_key same_owner_and_name catalogs_sym m.catalogs id h.catalogs,
)
serve-IsSound m (Request.saves_secret c kind text) h = ground arith
serve-IsSound m (Request.records_operation op) h =
    ground (arith, append-IsFiled operation_cluster m.operations op h.operations)
serve-IsSound m (Request.completes_operations c through at) h = swept-IsSound m c through at h
serve-IsSound m (Request.completes_operation id detail at) h = completed-IsSound m id detail at h
serve-IsSound m (Request.saves_metrics s) h =
    ground (arith, put-All (λ e. metrics_cluster e.1 ≡ e.0) m.metrics s.cluster_id s refl h.metrics)
serve-IsSound m (Request.saves_health s) h =
    ground (arith, put-All (λ e. health_cluster e.1 ≡ e.0) m.health s.cluster_id s refl h.health)
serve-IsSound m (Request.records_login_failure scope key window now) h = ground arith
serve-IsSound m (Request.resets_login_failures scope key) h = ground arith
serve-IsSound m (Request.saves_etcd_snapshot s sealed) h =
    ground (arith, append-IsFiled snapshot_cluster m.snapshots s h.snapshots)
serve-IsSound m (Request.deletes_etcd_snapshot id) h =
    ground (arith, drop_in-IsFiled id m.snapshots.entries h.snapshots)

-- In every state that the writes of the in-memory store reach, whether they succeed or not: each row
-- of clusters, users, groups and catalogs is filed once under its own id, no two rows clash (two users with one username, two groups with one name, two
-- catalogs of an owner with one name), and each operation, metrics or health snapshot and etcd
-- snapshot is filed under its own cluster.
pub Reached-IsSound : {m : Memory} → Reached m → IsSound m
Reached-IsSound (Reached.start m e) = subst IsSound (sym e) new_memory-IsSound
Reached-IsSound (Reached.next {m} before_ r e) =
    subst IsSound (sym e) (serve-IsSound m r (Reached-IsSound before_))
