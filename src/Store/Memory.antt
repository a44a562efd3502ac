-- ===== src/Store/Memory.antt =====
-- internal/store/store.go: the state of the in-memory store, and its tables of clusters, users,
-- groups and custom catalogs. The store hands out copies, so a row is a value. Its locks are not
-- part of the state: a call is one step.
use kaa_s_demo.Go.Time.{before}
use kaa_s_demo.Go.Sort.{stable_sort}
use kaa_s_demo.Domain.Health.{HealthSnapshot}
use kaa_s_demo.Prelude.Dict.{put, get, empty, Dict}
use kaa_s_demo.Domain.User.{User}
use kaa_s_demo.Domain.Group.{source_local, CustomCatalog, Group}
use kaa_s_demo.Domain.Cluster.{Cluster}
use kaa_s_demo.Prelude.{
  ◌==◌, not, some, none, [], ◌||◌, false, ◌&&◌, Bool, true, if◌then◌else◌, text_eq, List, Option,
  Text,
}
use kaa_s_demo.Store.Table.{
  conflict, not_found, StoreError, create_row, update_row, delete_row, rows_where, row_where,
}
use kaa_s_demo.Throttle.{Logins}
use kaa_s_demo.Etcd.Snapshot.{EtcdSnapshot}
use kaa_s_demo.Domain.Operation.{Operation, MetricsSnapshot}

pub record Memory : Type 0 where
  pub clusters : Dict Cluster
  pub users : Dict User
  pub groups : Dict Group
  pub catalogs : Dict CustomCatalog
  pub secrets : Dict Text
  pub operations : Dict (List Operation)
  pub metrics : Dict MetricsSnapshot
  pub health : Dict HealthSnapshot
  pub logins : Logins
  pub snapshots : Dict (List EtcdSnapshot)
  pub snapshot_data : Dict Text

unfoldable pub new_memory : Memory
new_memory = record {
  clusters = empty;
  users = empty;
  groups = empty;
  catalogs = empty;
  secrets = empty;
  operations = empty;
  metrics = empty;
  health = empty;
  logins = empty;
  snapshots = empty;
  snapshot_data = empty;
}

-- what a write returns: the state after it, and its error, if any
abbrev pub Written : Type 0
Written = Memory × Option StoreError

-- Clusters: nothing but the id is unique.
abbrev pub cluster_id : Cluster → Text
cluster_id c = c.id

abbrev pub no_clash : Cluster → Cluster → Bool
no_clash c d = false

unfoldable pub create_cluster : Memory → Cluster → Written
create_cluster m c =
    let (rows, e) = create_row cluster_id no_clash m.clusters c in (record m { clusters = rows }, e)

unfoldable pub get_cluster : Memory → Text → Option Cluster
get_cluster m id = get m.clusters id

unfoldable pub list_clusters : Memory → List Cluster
list_clusters m = rows_where (λ c. true) m.clusters

unfoldable pub list_clusters_by_owner : Memory → Text → List Cluster
list_clusters_by_owner m owner = rows_where (λ c. text_eq c.owner_id owner) m.clusters

unfoldable pub update_cluster : Memory → Cluster → Written
update_cluster m c =
    let (rows, e) = update_row cluster_id no_clash m.clusters c in (record m { clusters = rows }, e)

unfoldable pub update_cluster_unless_superseded : Memory → Cluster → Written
update_cluster_unless_superseded m c = elim (get m.clusters c.id) [
  | none ↦ (m, some not_found)
  | some existing ↦
      if not (existing.generation == c.generation)
      then (m, some conflict)
      else (record m { clusters = put m.clusters c.id c }, none)
]

-- Users: no two have one username.
abbrev pub user_id : User → Text
user_id u = u.id

abbrev pub same_username : User → User → Bool
same_username u v = text_eq u.username v.username

unfoldable pub create_user : Memory → User → Written
create_user m u =
    let (rows, e) = create_row user_id same_username m.users u in (record m { users = rows }, e)

unfoldable pub get_user : Memory → Text → Option User
get_user m id = get m.users id

unfoldable pub get_user_by_username : Memory → Text → Option User
get_user_by_username m username = row_where (λ u. text_eq u.username username) m.users

unfoldable pub update_user : Memory → User → Written
update_user m u =
    let (rows, e) = update_row user_id same_username m.users u in (record m { users = rows }, e)

unfoldable pub delete_user : Memory → Text → Written
delete_user m id = let (rows, e) = delete_row m.users id in (record m { users = rows }, e)

-- Groups: no two have one name.
abbrev pub group_id : Group → Text
group_id g = g.id

abbrev pub same_name : Group → Group → Bool
same_name g h = text_eq g.name h.name

unfoldable pub create_group : Memory → Group → Written
create_group m g =
    let (rows, e) = create_row group_id same_name m.groups g in (record m { groups = rows }, e)

unfoldable pub get_group : Memory → Text → Option Group
get_group m id = get m.groups id

-- every local group has the empty key, so only a directory's group is found this way
unfoldable pub get_group_by_source : Memory → Text → Text → Option Group
get_group_by_source m source key =
    if text_eq source source_local || text_eq source [] || text_eq key []
    then none
    else row_where (λ g. text_eq g.source source && text_eq g.source_key key) m.groups

unfoldable pub update_group : Memory → Group → Written
update_group m g =
    let (rows, e) = update_row group_id same_name m.groups g in (record m { groups = rows }, e)

unfoldable pub delete_group : Memory → Text → Written
delete_group m id = let (rows, e) = delete_row m.groups id in (record m { groups = rows }, e)

-- Custom catalogs: no two of one owner have one name.
abbrev pub catalog_key : CustomCatalog → Text
catalog_key cc = cc.id

abbrev pub same_owner_and_name : CustomCatalog → CustomCatalog → Bool
same_owner_and_name c d = text_eq c.owner_id d.owner_id && text_eq c.name d.name

unfoldable pub create_custom_catalog : Memory → CustomCatalog → Written
create_custom_catalog m cc =
    let (rows, e) = create_row catalog_key same_owner_and_name m.catalogs cc in
    (record m { catalogs = rows }, e)

unfoldable pub get_custom_catalog : Memory → Text → Option CustomCatalog
get_custom_catalog m id = get m.catalogs id

unfoldable pub update_custom_catalog : Memory → CustomCatalog → Written
update_custom_catalog m cc =
    let (rows, e) = update_row catalog_key same_owner_and_name m.catalogs cc in
    (record m { catalogs = rows }, e)

unfoldable pub delete_custom_catalog : Memory → Text → Written
delete_custom_catalog m id =
    let (rows, e) = delete_row m.catalogs id in (record m { catalogs = rows }, e)

-- The listings, oldest first.
unfoldable pub list_users : Memory → List User
list_users m =
    stable_sort (λ a b. before a.created_at b.created_at) (rows_where (λ u. true) m.users)

unfoldable pub list_groups : Memory → List Group
list_groups m =
    stable_sort (λ a b. before a.created_at b.created_at) (rows_where (λ g. true) m.groups)

unfoldable pub list_custom_catalogs : Memory → List CustomCatalog
list_custom_catalogs m =
    stable_sort (λ a b. before a.created_at b.created_at) (rows_where (λ cc. true) m.catalogs)

unfoldable pub list_custom_catalogs_by_owner : Memory → Text → List CustomCatalog
list_custom_catalogs_by_owner m owner =
    stable_sort (λ a b. before a.created_at b.created_at)
      (rows_where (λ cc. text_eq cc.owner_id owner) m.catalogs)
