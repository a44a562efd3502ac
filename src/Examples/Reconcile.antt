-- ===== src/Examples/Reconcile.antt =====
-- The reconcile loop at concrete inputs.
use kaa_s_demo.Domain.Node.{sizes}
use kaa_s_demo.Domain.Desired.{
  name_rest, pool_name_re, validate_pool_name, validate_pool, validate_pools, node_vm_names,
  validate_node_pools,
}
use kaa_s_demo.Store.Find.{passes}
use kaa_s_demo.Prelude.Any.{any}
use kaa_s_demo.Prelude.Dict.{lookup, put, get, empty}
use kaa_s_demo.Go.Time.{hour}
use kaa_s_demo.Prelude.Keys.{has, IsDistinct}
use kaa_s_demo.Store.Table.{some_row, create_row}
use kaa_s_demo.Prelude.{◌==◌, text_eq, Text, map, codes, ◌≡◌, refl, [], none, some, true, false}
use mathlib.Core.Path.{subst}
use kaa_s_demo.Prelude.{some_inj, ◌==◌}
use kaa_s_demo.Go.Float.{Fraction, fractions}
use kaa_s_demo.Domain.Phase.{Phase}
use kaa_s_demo.Domain.Cluster.{needs_work, Cluster}
use kaa_s_demo.Store.Memory.{cluster_id, Memory, new_memory, get_cluster, create_cluster}
use kaa_s_demo.Store.Requests.{Request, serve, Reached}
use kaa_s_demo.Reconcile.WorkSet.{Schedule, work_set, is_work}
use kaa_s_demo.Reconcile.WorkSet.Union.{work_set-is_work}
use mathlib.Core.List.{Perm}
use kaa_s_demo.Prelude.{◌↔◌, map}
use kaa_s_demo.Reconcile.Nodes.{nodes_converged, node_name}
use kaa_s_demo.Reconcile.Nodes.Converged.{nodes_converged_iff}
use kaa_s_demo.Reconcile.Seams.{Seams}
use kaa_s_demo.Repair.Tick.{never_taken, unsupported}
use kaa_s_demo.Prelude.Dict.{get, put, lookup, replace, empty}
use kaa_s_demo.Reconcile.Phases.{phase_step, persist, reconcile_one}
use kaa_s_demo.Reconcile.Steps.{TickInputs}
use kaa_s_demo.Reconcile.Phases.Passes.{may_follow}
use kaa_s_demo.Reconcile.Phases.Edges.{phase_step-may_follow}
use kaa_s_demo.Reconcile.Phases.Persist.{persist-superseded, reconcile_one-deletes, IsReleasing}
use kaa_s_demo.Examples.Samples.{cluster, policy}
use kaa_s_demo.Examples.Etcd.{defrag_policy, snapshot_policy, midnight}

abbrev schedule : Schedule Fraction
schedule = record {
  cert_renew_window = hour;
  etcd_policy = defrag_policy;
  snapshot_policy = snapshot_policy;
  repair_policy = policy;
}

abbrev in_phase : Phase → Cluster
in_phase q = record cluster { phase = q }

abbrev stored : Cluster → Memory
stored c = serve new_memory (Request.creates_cluster c)

abbrev pending_cluster : Cluster
pending_cluster = in_phase Phase.pending

work_set-is_work_example :
    IsDistinct (map cluster_id (work_set schedule (stored pending_cluster) 9))
    × ((k : Text)
        → has (map cluster_id (work_set schedule (stored pending_cluster) 9)) k
          ≡ passes (is_work schedule 9) (get_cluster (stored pending_cluster) k))
work_set-is_work_example =
    work_set-is_work schedule 9
      (Reached.next (Reached.start new_memory refl) (Request.creates_cluster pending_cluster) refl)

pools_checked : validate_node_pools cluster.name cluster.node_pools ≡ none
unfolding validate_node_pools validate_pools validate_pool validate_pool_name pool_name_re name_rest
    any sizes text_eq
pools_checked = refl

nodes_converged_iff_example :
    (nodes_converged cluster ≡ true) ↔ Perm (node_vm_names cluster) (map node_name cluster.nodes)
nodes_converged_iff_example = nodes_converged_iff cluster pools_checked

-- every call answers, and there is no DNS, Vault or registry
abbrev seams : Seams
seams = record {
  ensure_nodes = λ c specs. some [];
  destroy_cluster = λ c. true;
  init_control_plane = λ c. some (codes "k", codes "t");
  join_workers = λ c. true;
  remove_workers = λ c ns. true;
  image_available = λ c image. true;
  replace_vm = λ c n. true;
  power_on = λ c n. true;
  backup_control_plane = λ c n. true;
  restore_control_plane = λ c n. true;
  remove_control_plane = λ c n. true;
  join_control_plane = λ c n. true;
  restart_kubelet = λ c n. true;
  restore_etcd_snapshot = λ c n p. true;
  upgrade_kubernetes = λ c v. true;
  install_cni = λ c. true;
  ensure_viewer_kubeconfig = λ c. some (codes "v");
  ensure_node_disks = λ c. true;
  evict_longhorn_disks = λ c ds. true;
  remove_node_disks = λ c ds. true;
  ensure_control_plane_metrics = λ c. true;
  ensure_cni_metrics = λ c. true;
  ensure_default_gateway = λ c. true;
  ensure_longhorn_disks = λ c. true;
  ensure_external_secrets = λ c. true;
  ensure_registry_pull_secret = λ c u p. true;
  cert_expiry = λ c. some 1;
  renew_certs = λ c t. some (codes "k", 1);
  etcd_status = λ c. none;
  defrag_etcd = λ c. none;
  snapshot_etcd = λ c. none;
  install_addon = λ c a k. true;
  uninstall_addon = λ c a k. true;
  dns_enabled = false;
  dns_ensure = λ c. true;
  dns_release = λ c. true;
  vault_enabled = false;
  eso_auth = λ c. true;
  vault_ensure = λ c. true;
  vault_release = λ c. true;
  registry_enabled = false;
  registry_ensure = λ c. none;
  registry_release = λ c. true;
  seal = λ t. some t;
  unseal = λ t. some t;
  marshal = λ r. some r.secret;
  unmarshal = λ t. none;
}

abbrev inputs : TickInputs Fraction
inputs = record {
  now = 9;
  catalog = record { os = []; kubernetes = []; addons = []; bundles = [] };
  fl = fractions;
  local = midnight;
  new_id = codes "op";
  renewed_text = λ t. [];
  defragged_text = λ old st. [];
  snapshot_text = λ snap. [];
  repair_text = λ rs. [];
  summary_text = λ kind. [];
  failed_text = codes "failed";
  health = never_taken;
  power = unsupported;
  fleet = none;
}

provisioning :
    (phase_step seams schedule inputs Phase.pending pending_cluster new_memory).0
    ≡ some (in_phase Phase.provisioning_infra)
unfolding phase_step
provisioning = refl

phase_step-may_follow_example :
    (may_follow Phase.pending Phase.provisioning_infra ≡ true)
    × (codes "1" ≡ codes "1")
    × (cluster.generation ≡ 3)
phase_step-may_follow_example =
    phase_step-may_follow seams schedule inputs pending_cluster new_memory
      (in_phase Phase.provisioning_infra) provisioning

-- a deletion raises the generation while the tick runs
abbrev overtaken : Memory
overtaken = stored (record cluster { generation = 4; phase = Phase.deleting })

overtaken_row :
    (old : Cluster) → get_cluster overtaken (codes "1") ≡ some old → (old.generation == 3) ≡ false
unfolding serve create_cluster create_row new_memory empty get put lookup replace text_eq some_row
    any get_cluster
overtaken_row old e = subst (λ (c : Cluster). (c.generation == 3) ≡ false) (some_inj e) refl

persist-superseded_example :
    persist seams schedule inputs (in_phase Phase.provisioning_infra) overtaken ≡ overtaken
persist-superseded_example =
    persist-superseded seams schedule inputs pending_cluster new_memory overtaken
      (in_phase Phase.provisioning_infra) provisioning overtaken_row

deletes : IsReleasing seams
deletes = record { dns = λ c. refl; vault = λ c. refl; registry = λ c. refl; infra = λ c. refl }

abbrev deleting_cluster : Cluster
deleting_cluster = in_phase Phase.deleting

deleting_stored : get_cluster (stored deleting_cluster) (codes "1") ≡ some deleting_cluster
unfolding serve create_cluster create_row new_memory empty get put lookup replace text_eq some_row
    any get_cluster
deleting_stored = refl

reconcile_one-deletes_example :
    (d : Cluster) × (get_cluster
        (reconcile_one seams schedule inputs deleting_cluster (stored deleting_cluster))
        (codes "1")
      ≡ some d)
    × (d.phase ≡ Phase.deleted)
    × (needs_work d ≡ false)
reconcile_one-deletes_example =
    reconcile_one-deletes seams schedule inputs deleting_cluster (stored deleting_cluster) deletes
      refl deleting_stored
