-- ===== src/Examples/Samples.antt =====
-- A cluster of one control plane and two workers, a policy with the platform's default
-- thresholds, and what is observed of them.
use kaa_s_demo.Prelude.{true, false, none, some, [], ◌∷◌, Text, codes}
use kaa_s_demo.Prelude.Int.{pos}
use kaa_s_demo.Prelude.Dict.{Dict, empty}
use kaa_s_demo.Go.Float.{Fraction}
use kaa_s_demo.Go.Time.{Time, hour}
use kaa_s_demo.Domain.Phase.{Role, control_plane, worker, ready}
use kaa_s_demo.Domain.Node.{Node, NodePool}
use kaa_s_demo.Domain.Observed.{
  NodeFault, ClusterRepair, NodeRepairState, no_state, vm_down, not_ready,
}
use kaa_s_demo.Domain.Cluster.{Cluster}
use kaa_s_demo.Repair.{RepairPolicy, RepairObservation}

abbrev pub node : Role → Text → Node
node role name = record {
  id = name;
  role = role;
  vm_name = name;
  pool = [];
  ip = codes "10.200.0.9";
  mac = [];
  phase = [];
  image = [];
}

abbrev pub cp_0 : Text
cp_0 = codes "c-cp-0"

abbrev pub w_0 : Text
w_0 = codes "c-w-0"

abbrev pub w_1 : Text
w_1 = codes "c-w-1"

abbrev pub workers : NodePool
workers = record {
  name = codes "w";
  size = codes "small";
  desired_workers = pos 2;
  disk_gb = pos 0;
}

abbrev pub cluster : Cluster
cluster = record {
  id = codes "1";
  name = codes "c";
  owner_id = codes "u";
  size = codes "small";
  node_pools = workers ∷ [];
  node_disks = [];
  provider = [];
  network_cidr = codes "10.200.0.0/24";
  pod_cidr = [];
  svc_cidr = [];
  network_name = [];
  ip_mode = [];
  net_gateway = [];
  net_dns = [];
  static_ips = empty;
  control_planes = pos 0;
  api_vip = [];
  load_balancer_ip = [];
  dns_domain = [];
  apps_domain = [];
  bundle = codes "2026.1";
  os_image = [];
  k8s_version = [];
  cni = [];
  cni_version = [];
  target_bundle = [];
  phase = ready;
  status = [];
  generation = 3;
  observed_generation = 3;
  monitoring_wired = false;
  gateway_wired = false;
  dns_wired = false;
  vault_wired = false;
  registry_wired = false;
  registry_robot_not_after = none;
  storage_wired = [];
  storage_disk_gb = pos 0;
  cert_not_after = none;
  etcd = none;
  etcd_snapshot_at = none;
  repair = none;
  nodes = node control_plane cp_0 ∷ node worker w_0 ∷ node worker w_1 ∷ [];
  addons = [];
  created_at = 1;
  deleted_at = none;
}

abbrev pub fraction : Fraction
fraction = record { over = pos 1; under = pos 2 }

abbrev pub policy : RepairPolicy Fraction
policy = record {
  enabled = true;
  replace = true;
  restore = false;
  observe_interval = pos 120000000000;
  health_max_age = pos 300000000000;
  not_ready_grace = pos 300000000000;
  node_startup_grace = hour;
  replace_after = pos 1200000000000;
  max_unhealthy_fraction = fraction;
  max_unhealthy_clusters = fraction;
  max_attempts = 4;
  backoff = pos 300000000000;
}

-- one hour after Go's zero instant
abbrev pub at : Time
at = 3600000000000

-- no health snapshot, and the first worker's VM is down
abbrev pub blind : RepairObservation Fraction
blind = record {
  health = none;
  powered = record { entries = (cp_0, true) ∷ (w_0, false) ∷ (w_1, true) ∷ [] };
  fleet_unhealthy = record { over = pos 0; under = pos 1 };
  fleet_unhealthy_n = 0;
  now = at;
}

abbrev pub down_w_0 : Dict NodeFault
down_w_0 = record { entries = (w_0, vm_down) ∷ [] }

-- a node that has been NotReady for an hour, with two attempts
abbrev pub unready_state : NodeRepairState
unready_state = record no_state { fault = some not_ready; unhealthy_since = some 5; attempts = 2 }

abbrev pub unready_w_0 : ClusterRepair
unready_w_0 = record {
  nodes = record { entries = (w_0, unready_state) ∷ [] };
  target = [];
  action = none;
  observed_at = 5;
}
