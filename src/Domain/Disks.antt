-- ===== src/Domain/Disks.antt =====
-- internal/domain/domain.go: the extra disks of the nodes, and the questions about a cluster that
-- they go with. The WWN of a disk (NewDiskWWN, an MD5 digest of its names) is a parameter.
use kaa_s_demo.Go.Sort.{stable_sort}
use kaa_s_demo.Prelude.Int.{pos, ltb_ℤ, leb_ℤ, ℤ}
use kaa_s_demo.Domain.Node.{root_disk_gb, size_of, SizeSpec, NodePool, Node, NodeDisk}
use kaa_s_demo.Domain.Cluster.{worker_count, Cluster}
use kaa_s_demo.Prelude.{
  Option, ◌||◌, not, codes, text_eq, if◌then◌else◌, ◌&&◌, ltb, ◌==◌, List, Bool, Text, [], ◌∷◌,
  none, some, true, false, ◌++◌,
}
use kaa_s_demo.Domain.Desired.{DesiredNode, desired_nodes}
use kaa_s_demo.Domain.Phase.{DiskPhase, is_control_plane}

-- a < b on strings
unfoldable pub text_less : Text → Text → Bool
text_less [] [] = false
text_less [] (b ∷ bs) = true
text_less (a ∷ as') [] = false
text_less (a ∷ as') (b ∷ bs) = ltb a b || ((a == b) && text_less as' bs)

-- strings.Join(parts, ",")
unfoldable pub join : List Text → Text
join [] = []
join (p ∷ []) = p
join (p ∷ q ∷ ps) = p ++ b',' ∷ join (q ∷ ps)

-- strings.HasPrefix
unfoldable pub has_prefix : Text → Text → Bool
has_prefix s [] = true
has_prefix [] (p ∷ ps) = false
has_prefix (c ∷ cs) (p ∷ ps) = (c == p) && has_prefix cs ps

-- Cluster.Pool
pub pool_named : Text → List NodePool → Option NodePool
pool_named name [] = none
pool_named name (p ∷ ps) =
    let rest = pool_named name ps in if text_eq p.name name then some p else rest

unfoldable pub node_size : Cluster → Node → SizeSpec
unfolding pool_named
node_size c n =
    if is_control_plane n.role then size_of c.size else elim (pool_named n.pool c.node_pools) [
      | some p ↦ record (size_of p.size) { disk_gb = root_disk_gb p }
      | none ↦ size_of c.size
    ]

-- Cluster.APIEndpoint
unfoldable pub api_endpoint : Cluster → Text
api_endpoint c = if text_eq c.api_vip [] then [] else c.api_vip ++ codes ":8443"

unfoldable pub volume_group : NodeDisk → Text
volume_group d = codes "kaas-" ++ d.name

unfoldable pub disks_of : Text → List NodeDisk → List NodeDisk
disks_of vm [] = []
disks_of vm (d ∷ ds) = let rest = disks_of vm ds in if text_eq d.vm_name vm then d ∷ rest else rest

-- DisksFor; names are unique on a node, so how ties are sorted does not matter
unfoldable pub disks_for : Cluster → Text → List NodeDisk
unfolding disks_of
disks_for c vm = stable_sort (λ a b. text_less a.name b.name) (disks_of vm c.node_disks)

abbrev pub longhorn_data_path : Text
longhorn_data_path = codes "/var/lib/longhorn"

abbrev pub platform_storage_disk_name : Text
platform_storage_disk_name = codes "storage"

unfoldable pub longhorn_mount_path : Text → Text
longhorn_mount_path name =
    if text_eq name platform_storage_disk_name
    then longhorn_data_path
    else longhorn_data_path ++ b'-' ∷ name

unfoldable pub feeds_storage_pool : NodeDisk → Bool
feeds_storage_pool d =
    text_eq d.mount_path longhorn_data_path
    || has_prefix d.mount_path (longhorn_data_path ++ codes "-")

unfoldable pub is_platform_storage : NodeDisk → Bool
is_platform_storage d = text_eq d.name platform_storage_disk_name

-- d.Phase == DiskPhaseAttached, d.Phase == DiskPhaseRemoving
abbrev pub is_attached : DiskPhase → Bool
is_attached DiskPhase.attached = true
is_attached DiskPhase.pending = false
is_attached DiskPhase.removing = false

abbrev pub is_removing : DiskPhase → Bool
is_removing DiskPhase.removing = true
is_removing DiskPhase.pending = false
is_removing DiskPhase.attached = false

unfoldable pub needs_longhorn_registration : NodeDisk → Bool
needs_longhorn_registration d =
    is_attached d.phase && feeds_storage_pool d && not (is_platform_storage d)

-- the loop of DesiredStorageDisks, over the desired nodes
unfoldable pub storage_disks :
    (Text → Text → Text → Text) → Cluster → List DesiredNode → List NodeDisk
storage_disks wwn c [] = []
storage_disks wwn c (n ∷ ns) =
    let rest = storage_disks wwn c ns in
    if is_control_plane n.role
    then rest
    else record {
      vm_name = n.vm_name;
      name = platform_storage_disk_name;
      size_gb = c.storage_disk_gb;
      mount_path = longhorn_mount_path platform_storage_disk_name;
      fs_type = codes "ext4";
      phase = DiskPhase.pending;
      wwn = wwn c.id n.vm_name platform_storage_disk_name;
      device_id = [];
    }
      ∷ rest

unfoldable pub desired_storage_disks : (Text → Text → Text → Text) → Cluster → List NodeDisk
desired_storage_disks wwn c =
    if leb_ℤ c.storage_disk_gb (pos 0) then [] else storage_disks wwn c (desired_nodes c)

unfoldable pub longhorn_replicas : Cluster → ℤ
longhorn_replicas c =
    let n = worker_count c in
    let capped = if ltb_ℤ (pos 3) n then pos 3 else n in
    if ltb_ℤ capped (pos 1) then pos 1 else capped

unfoldable pub longhorn_parts : List NodeDisk → List Text
longhorn_parts [] = []
longhorn_parts (d ∷ ds) =
    let rest = longhorn_parts ds in
    if needs_longhorn_registration d then (d.vm_name ++ b':' ∷ d.mount_path) ∷ rest else rest

unfoldable pub storage_fingerprint : Cluster → Text
storage_fingerprint c = join (stable_sort text_less (longhorn_parts c.node_disks))

unfoldable pub registered_disks : List NodeDisk → List NodeDisk
registered_disks [] = []
registered_disks (d ∷ ds) =
    let rest = registered_disks ds in if needs_longhorn_registration d then d ∷ rest else rest

unfoldable pub storage_disks_for : Cluster → Text → List NodeDisk
storage_disks_for c vm =
    stable_sort (λ a b. text_less a.mount_path b.mount_path) (registered_disks (disks_for c vm))
