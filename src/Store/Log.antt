-- ===== src/Store/Log.antt =====
-- internal/store/store.go: the history of operations, secrets, the latest metrics and health, and
-- the etcd snapshots of the in-memory store.
use kaa_s_demo.Store.Table.{not_found}
use kaa_s_demo.Domain.Phase.{kind_text, SecretKind}
use kaa_s_demo.Go.Time.{after, Time}
use kaa_s_demo.Prelude.{
  leb, map, not, [], ◌∷◌, ◌&&◌, none, text_eq, some, Bool, List, Option, ◌++◌, if◌then◌else◌, ℕ,
  Text,
}
use kaa_s_demo.Etcd.Snapshot.{EtcdSnapshot}
use kaa_s_demo.Domain.Health.{HealthSnapshot}
use kaa_s_demo.Prelude.Dict.{remove, get, put, Dict}
use kaa_s_demo.Store.Memory.{Memory, Written}
use kaa_s_demo.Domain.Operation.{
  Operation, MetricsSnapshot, sweep_exempt, is_in_progress, completed,
}
use kaa_s_demo.Go.Sort.{stable_sort}

-- clusterID + "/" + string(kind)
unfoldable pub secret_key : Text → SecretKind → Text
secret_key cluster kind = cluster ++ b'/' ∷ kind_text kind

unfoldable pub save_secret : Memory → Text → SecretKind → Text → Memory
save_secret m cluster kind ciphertext = record m {
  secrets = put m.secrets (secret_key cluster kind) ciphertext;
}

unfoldable pub get_secret : Memory → Text → SecretKind → Option Text
get_secret m cluster kind = get m.secrets (secret_key cluster kind)

-- a key that the map lacks reads as the nil slice
unfoldable pub bucket {ℓ} : {V : Type ℓ} → Dict (List V) → Text → List V
bucket d k = elim (get d k) [ none ↦ [] | some l ↦ l ]

unfoldable pub record_operation : Memory → Operation → Memory
record_operation m op = record m {
  operations = put m.operations op.cluster_id (bucket m.operations op.cluster_id ++ op ∷ []);
}

unfoldable pub list_operations : Memory → Text → List Operation
list_operations m cluster =
    stable_sort (λ a b. after a.started_at b.started_at) (bucket m.operations cluster)

unfoldable pub is_swept : ℕ → Operation → Bool
is_swept through op =
    is_in_progress op.status && not (sweep_exempt op.kind) && leb op.generation through

unfoldable pub finish : Time → Operation → Operation
finish at op = record op { status = completed; finished_at = some at }

unfoldable pub complete_operations : Memory → Text → ℕ → Time → Memory
complete_operations m cluster through at = elim (get m.operations cluster) [
  | none ↦ m
  | some ops ↦ record m {
    operations =
        put m.operations cluster (map (λ op. if is_swept through op then finish at op else op) ops);
  }
]

-- Status, FinishedAt, and Detail if there is one
unfoldable pub finish_with : Text → Time → Operation → Operation
finish_with detail at op =
    let done = finish at op in if text_eq detail [] then done else record done { detail = detail }

-- the inner loop of CompleteOperation, up to the first operation with the id
unfoldable pub complete_first : Text → Text → Time → List Operation → Option (List Operation)
complete_first id detail at [] = none
complete_first id detail at (op ∷ ops) =
    let rest = complete_first id detail at ops in
    if text_eq op.id id
    then some (finish_with detail at op ∷ ops)
    else elim rest [ none ↦ none | some ops' ↦ some (op ∷ ops') ]

-- a bucket and the others, each of them as it is unless it holds the operation
unfoldable pub complete_in :
    Text → Text → Time → List (Text × List Operation) → Option (List (Text × List Operation))
complete_in id detail at [] = none
complete_in id detail at ((k, ops) ∷ l) =
    let rest = complete_in id detail at l in
    elim (complete_first id detail at ops) [
      | some ops' ↦ some ((k, ops') ∷ l)
      | none ↦ elim rest [ none ↦ none | some l' ↦ some ((k, ops) ∷ l') ]
    ]

unfoldable pub complete_operation : Memory → Text → Text → Time → Written
unfolding complete_in
complete_operation m id detail at = elim (complete_in id detail at m.operations.entries) [
  | none ↦ (m, some not_found)
  | some l ↦ (record m { operations = record { entries = l } }, none)
]

unfoldable pub save_metrics : Memory → MetricsSnapshot → Memory
save_metrics m s = record m { metrics = put m.metrics s.cluster_id s }

unfoldable pub get_metrics : Memory → Text → Option MetricsSnapshot
get_metrics m cluster = get m.metrics cluster

unfoldable pub save_health : Memory → HealthSnapshot → Memory
save_health m s = record m { health = put m.health s.cluster_id s }

unfoldable pub get_health : Memory → Text → Option HealthSnapshot
get_health m cluster = get m.health cluster

unfoldable pub save_etcd_snapshot : Memory → EtcdSnapshot → Text → Memory
save_etcd_snapshot m s sealed = record m {
  snapshots = put m.snapshots s.cluster_id (bucket m.snapshots s.cluster_id ++ s ∷ []);
  snapshot_data = put m.snapshot_data s.id sealed;
}

unfoldable pub list_etcd_snapshots : Memory → Text → List EtcdSnapshot
list_etcd_snapshots m cluster =
    stable_sort (λ a b. after a.taken_at b.taken_at) (bucket m.snapshots cluster)

unfoldable pub get_etcd_snapshot_payload : Memory → Text → Option Text
get_etcd_snapshot_payload m id = get m.snapshot_data id

-- the inner loop of DeleteEtcdSnapshot: the list without the first snapshot that has the id
unfoldable pub drop_first : Text → List EtcdSnapshot → Option (List EtcdSnapshot)
drop_first id [] = none
drop_first id (s ∷ ss) =
    let rest = drop_first id ss in
    if text_eq s.id id then some ss else elim rest [ none ↦ none | some ss' ↦ some (s ∷ ss') ]

unfoldable pub drop_in : Text → List (Text × List EtcdSnapshot) → List (Text × List EtcdSnapshot)
drop_in id [] = []
drop_in id ((k, ss) ∷ l) =
    let rest = drop_in id l in
    elim (drop_first id ss) [ some ss' ↦ (k, ss') ∷ l | none ↦ (k, ss) ∷ rest ]

-- deleting an absent snapshot is a no-op
unfoldable pub delete_etcd_snapshot : Memory → Text → Memory
unfolding drop_in
delete_etcd_snapshot m id = record m {
  snapshots = record { entries = drop_in id m.snapshots.entries };
  snapshot_data = remove m.snapshot_data id;
}
