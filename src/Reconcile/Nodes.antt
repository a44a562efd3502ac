-- ===== src/Reconcile/Nodes.antt =====
-- internal/reconcile/reconcile.go: the VMs that a cluster should have, and what is provisioned of
-- them; with the node and disk records of internal/provision.
pub mod Matching
pub mod Converged
pub mod Rolling
use kaa_s_demo.Prelude.Keys.{has}
use kaa_s_demo.Prelude.Int.{ℤ}
use kaa_s_demo.Domain.Cluster.{infra_provider, Cluster}
use kaa_s_demo.Domain.Node.{Node, NodeDisk}
use kaa_s_demo.Prelude.Dict.{get, put, empty, Dict}
use kaa_s_demo.Prelude.{
  ltb, ◌==◌, length, codes, ◌&&◌, ◌||◌, not, map, text_eq, Bool, if◌then◌else◌, Option, List, Text,
  [], ◌∷◌, none, some, true, false, ◌++◌,
}
use kaa_s_demo.Domain.Desired.{DesiredNode, desired_nodes}
use kaa_s_demo.Domain.Phase.{attached, Role, is_control_plane}
use kaa_s_demo.Domain.Disks.{disks_for, is_attached, is_removing}

pub record DiskSpec : Type 0 where
  pub name : Text
  pub size_gb : ℤ
  pub wwn : Text

pub record NodeSpec : Type 0 where
  pub vm_name : Text
  pub role : Role
  pub pool : Text
  pub cpus : ℤ
  pub mem_mb : ℤ
  pub disk_gb : ℤ
  pub image : Text
  pub ip : Text
  pub disks : List DiskSpec

pub record ProvisionedNode : Type 0 where
  pub vm_name : Text
  pub ip : Text
  pub mac : Text
  pub disks : Dict Text

-- the zero value, which a map gives for a name that is not there
abbrev pub no_node : ProvisionedNode
no_node = record { vm_name = []; ip = []; mac = []; disks = empty }

-- catalog.GoldenImageNameFor
unfoldable pub golden_image_name_for : Text → Text → Text → Text
golden_image_name_for provider os k8s =
    if text_eq provider (codes "vsphere") || text_eq provider (codes "proxmox")
    then os ++ (codes "-k8s-" ++ k8s)
    else os ++ (codes "-k8s-" ++ (k8s ++ codes ".qcow2"))

abbrev pub text_or_empty : Option Text → Text
text_or_empty none = []
text_or_empty (some t) = t

unfoldable pub disk_specs : Cluster → Text → List DiskSpec
disk_specs c vm =
    map (λ d. record { name = d.name; size_gb = d.size_gb; wwn = d.wwn }) (disks_for c vm)

abbrev pub node_spec : Cluster → Text → DesiredNode → NodeSpec
node_spec c image d = record {
  vm_name = d.vm_name;
  role = d.role;
  pool = d.pool;
  cpus = d.spec.cpus;
  mem_mb = d.spec.mem_mb;
  disk_gb = d.spec.disk_gb;
  image = image;
  ip = text_or_empty (get c.static_ips d.vm_name);
  disks = disk_specs c d.vm_name;
}

unfoldable pub node_specs : Cluster → List NodeSpec
node_specs c =
    map (node_spec c (golden_image_name_for (infra_provider c) c.os_image c.k8s_version))
      (desired_nodes c)

-- for _, n := range nodes { byName[n.VMName] = n }
unfoldable pub by_name : List ProvisionedNode → Dict ProvisionedNode → Dict ProvisionedNode
by_name [] d = d
by_name (n ∷ ns) d = by_name ns (put d n.vm_name n)

abbrev pub or_no_node : Option ProvisionedNode → ProvisionedNode
or_no_node none = no_node
or_no_node (some n) = n

abbrev pub provisioned : Dict ProvisionedNode → NodeSpec → Node
provisioned found s =
    let n = or_no_node (get found s.vm_name) in
    record {
      id = s.vm_name;
      role = s.role;
      vm_name = s.vm_name;
      pool = s.pool;
      ip = n.ip;
      mac = n.mac;
      phase = codes "ready";
      image = s.image;
    }

unfoldable pub to_domain_nodes : List NodeSpec → List ProvisionedNode → List Node
to_domain_nodes specs nodes = map (provisioned (by_name nodes empty)) specs

abbrev pub spec_name : NodeSpec → Text
spec_name s = s.vm_name

abbrev pub node_name : Node → Text
node_name n = n.vm_name

-- every name is one of the others
unfoldable pub all_in : List Text → List Text → Bool
all_in [] have = true
all_in (k ∷ ks) have = has have k && all_in ks have

unfoldable pub nodes_converged : Cluster → Bool
nodes_converged c =
    if not (length (node_specs c) == length c.nodes)
    then false
    else all_in (map spec_name (node_specs c)) (map node_name c.nodes)

-- the workers that no spec names
unfoldable pub removed_workers : List Node → List NodeSpec → List Node
removed_workers [] desired = []
removed_workers (n ∷ ns) desired =
    let rest = removed_workers ns desired in
    if is_control_plane n.role || has (map spec_name desired) n.vm_name then rest else n ∷ rest

-- byName[d.VMName].Disks[d.Name], if it is not empty
unfoldable pub observe_disk : Dict ProvisionedNode → NodeDisk → NodeDisk
observe_disk found d =
    let id = text_or_empty (get (or_no_node (get found d.vm_name)).disks d.name) in
    if text_eq id [] then d else record d { device_id = id }

unfoldable pub observe_disks : Cluster → List ProvisionedNode → Cluster
observe_disks c nodes = record c {
  node_disks = map (observe_disk (by_name nodes empty)) c.node_disks;
}

unfoldable pub disks_converged : List NodeDisk → Bool
disks_converged [] = true
disks_converged (d ∷ ds) = is_attached d.phase && disks_converged ds

-- the loop of mountNodeDisks, after EnsureNodeDisks
unfoldable pub mounted : NodeDisk → NodeDisk
mounted d =
    if not (text_eq d.device_id []) && not (is_attached d.phase)
    then record d { phase = attached }
    else d

unfoldable pub removing_disks : List NodeDisk → List NodeDisk
removing_disks [] = []
removing_disks (d ∷ ds) =
    let rest = removing_disks ds in if is_removing d.phase then d ∷ rest else rest

unfoldable pub kept_disks : List NodeDisk → List NodeDisk
kept_disks [] = []
kept_disks (d ∷ ds) = let rest = kept_disks ds in if is_removing d.phase then rest else d ∷ rest

unfoldable pub all_images : Text → List Node → Bool
all_images image [] = true
all_images image (n ∷ ns) = text_eq n.image image && all_images image ns

unfoldable pub all_nodes_on_image : List Node → Text → Bool
all_nodes_on_image nodes image = all_images image nodes && ltb 0 (length nodes)

unfoldable pub first_node : (Node → Bool) → List Node → Option Node
first_node test [] = none
first_node test (n ∷ ns) = let rest = first_node test ns in if test n then some n else rest

-- workers before control planes
unfoldable pub next_node_to_roll : List Node → Text → Option Node
unfolding first_node
next_node_to_roll nodes image =
    elim (first_node (λ n. not (is_control_plane n.role) && not (text_eq n.image image)) nodes) [
      | some n ↦ some n
      | none ↦ first_node (λ n. is_control_plane n.role && not (text_eq n.image image)) nodes
    ]

-- nodeByNameOK
unfoldable pub node_by_name : List Node → Text → Option Node
unfolding first_node
node_by_name nodes name = first_node (λ n. text_eq n.vm_name name) nodes
