-- ===== src/Reconcile/Steps.antt =====
-- internal/reconcile: the steps of a tick: passes one after the other, certificates, etcd, snapshots,
-- repairs, and the action history around them (operations.go, etcd.go, etcdsnapshot.go and repair.go).
use kaa_s_demo.Maintenance.{LocalTime}
use kaa_s_demo.Go.Float.{Float}
use kaa_s_demo.Prelude.Int.{pos}
use kaa_s_demo.Domain.Observed.{ClusterRepair, EtcdStatus}
use kaa_s_demo.Go.Time.{before, Time}
use kaa_s_demo.Domain.Cluster.{Cluster}
use kaa_s_demo.Domain.Observed.{RepairAction}
use kaa_s_demo.Prelude.{
  not, length, Bool, ℕ, if◌then◌else◌, List, Text, Option, [], ◌∷◌, none, some, true, false,
}
use kaa_s_demo.Reconcile.Act.{Act, ◌>>=◌, ◌>>◌, pure, ask, modify}
use kaa_s_demo.Reconcile.Seams.{Seams}
use kaa_s_demo.Reconcile.Wiring
use kaa_s_demo.Reconcile.Repairs.{run_repair_action}
use kaa_s_demo.Catalog.{Catalog}
use kaa_s_demo.Reconcile.Nodes.{
  ProvisionedNode, node_specs, to_domain_nodes, observe_disks, node_by_name,
}
use kaa_s_demo.Reconcile.WorkSet.{Schedule, cert_renew_cutoff}
use kaa_s_demo.Store.Memory.{Memory}
use kaa_s_demo.Store.Log.{
  record_operation, complete_operation, save_etcd_snapshot, list_etcd_snapshots,
  delete_etcd_snapshot,
}
use kaa_s_demo.Domain.Operation.{Operation, OperationKind, OperationStatus}
use kaa_s_demo.Domain.Phase.{Phase, SecretKind}
use kaa_s_demo.Etcd.Snapshot.{EtcdSnapshot, prune_etcd_snapshots}
use kaa_s_demo.Etcd.Defrag.{defrag_due}
use kaa_s_demo.Repair.{in_flight, repair_state}
use kaa_s_demo.Repair.Tick.{HealthRead, PowerRead}
use kaa_s_demo.Repair.Attempt.{complete_attempt}

-- What else a tick is given.
pub record TickInputs (F : Type 0) : Type 0 where
  pub now : Time
  pub catalog : Catalog
  pub fl : Float F
  pub local : Text → Time → LocalTime
  pub new_id : Text
  pub renewed_text : Time → Text
  pub defragged_text : Option EtcdStatus → EtcdStatus → Text
  pub snapshot_text : EtcdSnapshot → Text
  pub repair_text : ClusterRepair → Text
  pub summary_text : OperationKind → Text
  pub failed_text : Text
  pub health : HealthRead
  pub power : PowerRead
  pub fleet : Option (F × ℕ)

abbrev is_restore : RepairAction → Bool
is_restore RepairAction.restore = true
is_restore _ = false

abbrev pub answer_of : {A B : Type 0} → Option (A × B) → Option A
answer_of none = none
answer_of (some (a, b)) = some a

-- passes over a cluster, one after the other, up to the first that fails
unfoldable pub run_passes : List (Cluster → Act Cluster) → Cluster → Act Cluster
run_passes [] c = pure c
run_passes (f ∷ fs) c = f c >>= λ c'. run_passes fs c'

-- what follows the provisioning of nodes: add-ons, then the wiring
unfoldable pub converge_passes : Seams → List (Cluster → Act Cluster)
converge_passes s =
    Wiring.reconcile_addons s
    ∷ Wiring.reconcile_monitoring_wiring s
    ∷ Wiring.reconcile_gateway_wiring s
    ∷ Wiring.reconcile_dns_wiring s
    ∷ Wiring.reconcile_vault_wiring s
    ∷ Wiring.reconcile_registry_wiring s
    ∷ Wiring.reconcile_storage_wiring s
    ∷ []

unfoldable pub converge_cluster : Seams → Cluster → Act Cluster
converge_cluster s c = run_passes (converge_passes s) c

-- what goes before the infrastructure of a cluster
unfoldable pub release_passes : Seams → List (Cluster → Act Cluster)
release_passes s = Wiring.release_dns s ∷ Wiring.release_vault s ∷ Wiring.release_registry s ∷ []

-- what an update does between the provisioning of nodes and its end
unfoldable pub update_passes : Seams → List (Cluster → Act Cluster)
update_passes s = Wiring.mount_node_disks s ∷ converge_passes s

unfoldable pub nodes_ensured : Cluster → List ProvisionedNode → Cluster
nodes_ensured c nodes =
    observe_disks (record c { nodes = to_domain_nodes (node_specs c) nodes }) nodes

module _ {F : Type 0} (s : Seams) (p : Schedule F) (i : TickInputs F) where
  -- recordAutoOp: no actor and no generation
  unfoldable pub auto_op : Text → OperationKind → Text → Operation
  auto_op cluster kind detail = record {
    id = i.new_id;
    cluster_id = cluster;
    kind = kind;
    summary = i.summary_text kind;
    detail = detail;
    generation = 0;
    status = OperationStatus.in_progress;
    actor_id = [];
    actor_username = [];
    started_at = i.now;
    finished_at = none;
  }

  -- completeAutoOp, when the body has ended, with the detail or the error
  unfoldable pub close_op : Option (Cluster × Text) × Memory → Option Cluster × Memory
  close_op (none, m) = (none, (complete_operation m i.new_id i.failed_text i.now).0)
  close_op (some (c, detail), m) = (some c, (complete_operation m i.new_id detail i.now).0)

  unfoldable pub as_operation : Text → OperationKind → Act (Cluster × Text) → Act Cluster
  as_operation cluster kind body m = close_op (body (record_operation m (auto_op cluster kind [])))

  unfoldable pub reconcile_certs : Cluster → Act Cluster
  reconcile_certs c = do
    expiry ← elim c.cert_not_after [ some t ↦ pure t | none ↦ ask (s.cert_expiry c) ]
    pure (record c {
      cert_not_after = some expiry;
      phase = if before expiry (cert_renew_cutoff p i.now) then Phase.renewing_certs else c.phase;
    })

  unfoldable pub reconcile_cert_renewal : Cluster → Act Cluster
  reconcile_cert_renewal c = as_operation c.id OperationKind.cert_renewal (do
    (kubeconfig, until) ← ask (s.renew_certs c (cert_renew_cutoff p i.now))
    Wiring.save_sealed s c.id SecretKind.kubeconfig kubeconfig
    pure (record c { cert_not_after = some until; phase = Phase.ready }, i.renewed_text until))

  -- the last defragmentation is the platform's own record
  unfoldable pub observed_etcd : Cluster → EtcdStatus → EtcdStatus
  observed_etcd c st = elim c.etcd [
    | none ↦ st
    | some old ↦ record st { defragged_at = old.defragged_at }
  ]

  unfoldable pub reconcile_etcd : Cluster → Act Cluster
  reconcile_etcd c = do
    answer ← ask (s.etcd_status c)
    let st = observed_etcd c answer
    pure (record c {
      etcd = some st;
      phase =
          if (defrag_due i.fl i.local p.etcd_policy st c.control_planes i.now).0
          then Phase.defragmenting_etcd
          else c.phase;
    })

  -- the stored snapshots beyond the retention count
  unfoldable pub prune_snapshots : List EtcdSnapshot → Memory → Memory
  prune_snapshots [] m = m
  prune_snapshots (old ∷ olds) m = prune_snapshots olds (delete_etcd_snapshot m old.id)

  unfoldable pub reconcile_snapshot : Cluster → Act Cluster
  reconcile_snapshot c = as_operation c.id OperationKind.snapshot (do
    (taken, payload) ← ask (s.snapshot_etcd c)
    sealed ← ask (s.seal payload)
    let snap = record taken { id = i.new_id; cluster_id = c.id; size_bytes = pos (length sealed) }
    modify (λ m. save_etcd_snapshot m snap sealed)
    modify (λ m.
        prune_snapshots (prune_etcd_snapshots p.snapshot_policy (list_etcd_snapshots m c.id)) m)
    pure (record c { etcd_snapshot_at = some snap.taken_at }, i.snapshot_text snap))

  -- executeRepair, whose failure is an outcome like its success: the cluster after it is kept
  unfoldable pub execute_repair : Cluster → Memory → Cluster × Memory
  execute_repair c m =
      let rs = repair_state c in
      if not (in_flight rs) then (c, m) else elim (node_by_name c.nodes rs.target) [
        | none ↦ (c, m)
        | some node ↦
            let kind : OperationKind = elim rs.action [
              | some a ↦ if is_restore a then OperationKind.restore else OperationKind.repair
              | none ↦ OperationKind.repair
            ] in
            let m' = record_operation m (auto_op c.id kind (i.repair_text rs)) in
            let (c', done) = run_repair_action s p.snapshot_policy i.now rs.action c node m' in
            (c', (complete_operation m' i.new_id (if done then [] else i.failed_text) i.now).0)
      ]

  unfoldable pub finish_repair : Cluster → Act Cluster
  finish_repair c m =
      let (c', m') = execute_repair c m in
      (
        some
            (record c' { repair = some (complete_attempt (repair_state c')); phase = Phase.ready }),
        m',
      )
