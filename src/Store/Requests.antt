-- ===== src/Store/Requests.antt =====
-- internal/store/store.go: every write of the in-memory store as one request, and runs of requests
-- from the new store. (Its callers' writes interleave in any order: each holds the store's mutex.)
use kaa_s_demo.Etcd.Snapshot.{EtcdSnapshot}
use kaa_s_demo.Domain.Health.{HealthSnapshot}
use kaa_s_demo.Go.Time.{Duration, Time}
use kaa_s_demo.Domain.Phase.{SecretKind}
use kaa_s_demo.Domain.Group.{CustomCatalog, Group}
use kaa_s_demo.Domain.User.{User}
use kaa_s_demo.Domain.Cluster.{Cluster}
use kaa_s_demo.Prelude.{ℕ, Text, ◌≡◌}
use kaa_s_demo.Store.Memory.{
  Memory, new_memory, create_cluster, update_cluster, update_cluster_unless_superseded, create_user,
  update_user, delete_user, create_group, update_group, delete_group, create_custom_catalog,
  update_custom_catalog, delete_custom_catalog,
}
use kaa_s_demo.Store.Log.{
  save_secret, record_operation, complete_operations, complete_operation, save_metrics, save_health,
  save_etcd_snapshot, delete_etcd_snapshot,
}
use kaa_s_demo.Throttle.{record_login_failure, reset_login_failures}
use kaa_s_demo.Domain.Operation.{Operation, MetricsSnapshot}

pub data Request : Type 0 where
  creates_cluster updates_cluster updates_unless_superseded : Cluster → Request
  creates_user updates_user : User → Request
  deletes_user : Text → Request
  creates_group updates_group : Group → Request
  deletes_group : Text → Request
  creates_catalog updates_catalog : CustomCatalog → Request
  deletes_catalog : Text → Request
  saves_secret : Text → SecretKind → Text → Request
  records_operation : Operation → Request
  completes_operations : Text → ℕ → Time → Request
  completes_operation : Text → Text → Time → Request
  saves_metrics : MetricsSnapshot → Request
  saves_health : HealthSnapshot → Request
  records_login_failure : Text → Text → Duration → Time → Request
  resets_login_failures : Text → Text → Request
  saves_etcd_snapshot : EtcdSnapshot → Text → Request
  deletes_etcd_snapshot : Text → Request

-- the state after a request, whether it succeeds or not
unfoldable pub serve : Memory → Request → Memory
serve m (creates_cluster c) = (create_cluster m c).0
serve m (updates_cluster c) = (update_cluster m c).0
serve m (updates_unless_superseded c) = (update_cluster_unless_superseded m c).0
serve m (creates_user u) = (create_user m u).0
serve m (updates_user u) = (update_user m u).0
serve m (deletes_user id) = (delete_user m id).0
serve m (creates_group g) = (create_group m g).0
serve m (updates_group g) = (update_group m g).0
serve m (deletes_group id) = (delete_group m id).0
serve m (creates_catalog cc) = (create_custom_catalog m cc).0
serve m (updates_catalog cc) = (update_custom_catalog m cc).0
serve m (deletes_catalog id) = (delete_custom_catalog m id).0
serve m (saves_secret c kind text) = save_secret m c kind text
serve m (records_operation op) = record_operation m op
serve m (completes_operations c through at) = complete_operations m c through at
serve m (completes_operation id detail at) = (complete_operation m id detail at).0
serve m (saves_metrics s) = save_metrics m s
serve m (saves_health s) = save_health m s
serve m (records_login_failure scope key window now) = record m {
  logins = record_login_failure m.logins scope key window now;
}
serve m (resets_login_failures scope key) = record m {
  logins = reset_login_failures m.logins scope key;
}
serve m (saves_etcd_snapshot s sealed) = save_etcd_snapshot m s sealed
serve m (deletes_etcd_snapshot id) = delete_etcd_snapshot m id

-- The stores that are reached from the new one.
pub data Reached : Memory → Type 0 where
  start : (m : Memory) → m ≡ new_memory → Reached m
  next : {m n : Memory} → Reached m → (r : Request) → n ≡ serve m r → Reached n
