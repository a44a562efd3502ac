-- ===== src/Domain/Admission.antt =====
-- internal/domain/domain.go: the checks of the extra disks that a user asks for.
pub mod Sound
use kaa_s_demo.Domain.Phase.{is_control_plane}
use kaa_s_demo.Prelude.Keys.{has}
use kaa_s_demo.Prelude.Any.{any}
use kaa_s_demo.Go.Strings.{split}
use kaa_s_demo.Prelude.Int.{pos, ltb_ℤ, ℤ}
use kaa_s_demo.Domain.Node.{NodeDisk}
use kaa_s_demo.Domain.Cluster.{Cluster}
use kaa_s_demo.Prelude.{
  length, ◌&&◌, suc, ◌||◌, ltb, text_eq, not, codes, Bool, if◌then◌else◌, ℕ, Option, List, Text, [],
  ◌∷◌, none, some, true, false, ◌++◌,
}
use kaa_s_demo.Domain.Desired.{DesiredNode, desired_nodes, pool_name_re}
use kaa_s_demo.Domain.Disks.{has_prefix, platform_storage_disk_name}

pub data DiskError : Type 0 where
  not_a_worker duplicate_disk two_mounts : Text → Text → DiskError
  name_required mount_required : DiskError
  bad_name too_long reserved too_many : Text → DiskError
  bad_size : Text → ℤ → DiskError
  bad_filesystem not_absolute not_clean system_directory : Text → DiskError

-- ValidateDiskName: no error is `none`; diskNameRE is the expression of poolNameRE
unfoldable pub validate_disk_name : Text → Option DiskError
validate_disk_name name =
    if text_eq name []
    then some name_required
    else if not (pool_name_re name)
    then some (bad_name name)
    else if ltb 32 (length name)
    then some (too_long name)
    else none

unfoldable pub validate_user_disk_name : Text → Option DiskError
validate_user_disk_name name = elim (validate_disk_name name) [
  | some e ↦ some e
  | none ↦ if text_eq name platform_storage_disk_name then some (reserved name) else none
]

-- filepath.Clean of an absolute path: the components, the last one first, without the empty ones and
-- ".", and ".." for one less
unfoldable pub clean_onto : List Text → List Text → List Text
clean_onto kept [] = kept
clean_onto kept (p ∷ ps) = clean_onto (step kept) ps
  where
    step : List Text → List Text
    step [] = if text_eq p [] || text_eq p (codes ".") || text_eq p (codes "..") then [] else p ∷ []
    step (k ∷ ks) =
        if text_eq p [] || text_eq p (codes ".")
        then k ∷ ks
        else if text_eq p (codes "..")
        then ks
        else p ∷ k ∷ ks

-- the components joined again, from the last one
unfoldable pub rooted : Text → List Text → Text
rooted tail [] = tail
rooted tail (p ∷ ps) = rooted (b'/' ∷ p ++ tail) ps

unfoldable pub clean : Text → Text
clean path = elim (clean_onto [] (split b'/' path)) [ [] ↦ codes "/" | p ∷ ps ↦ rooted [] (p ∷ ps) ]

abbrev pub protected_mounts : List Text
protected_mounts =
    codes "/"
    ∷ codes "/boot"
    ∷ codes "/etc"
    ∷ codes "/usr"
    ∷ codes "/bin"
    ∷ codes "/sbin"
    ∷ codes "/lib"
    ∷ codes "/lib64"
    ∷ codes "/dev"
    ∷ codes "/proc"
    ∷ codes "/sys"
    ∷ codes "/run"
    ∷ codes "/var"
    ∷ codes "/var/lib"
    ∷ codes "/var/lib/kubelet"
    ∷ codes "/var/lib/containerd"
    ∷ codes "/var/lib/etcd"
    ∷ codes "/etc/kubernetes"
    ∷ codes "/home"
    ∷ codes "/root"
    ∷ codes "/tmp"
    ∷ []

unfoldable pub validate_mount_path : Text → Option DiskError
validate_mount_path path =
    if text_eq path []
    then some mount_required
    else if not (has_prefix path (codes "/"))
    then some (not_absolute path)
    else if not (text_eq (clean path) path)
    then some (not_clean path)
    else if any (λ p. text_eq path p) protected_mounts
    then some (system_directory path)
    else none

-- workers[d.VMName]
unfoldable pub is_worker_of : Cluster → Text → Bool
is_worker_of c vm =
    any (λ d. not (is_control_plane d.role) && text_eq d.vm_name vm) (desired_nodes c)

-- What the loop of ValidateNodeDisks keeps: the maps perNode, seen and mounts. A count is read off
-- the nodes of the disks so far.
pub record Checked : Type 0 where
  pub nodes : List Text
  pub seen : List Text
  pub mounts : List Text

unfoldable pub count_of : Text → List Text → ℕ
count_of k [] = 0
count_of k (j ∷ js) = let rest = count_of k js in if text_eq j k then suc rest else rest

abbrev pub slash : Text → Text → Text
slash a b = a ++ b'/' ∷ b

abbrev pub then_ : Option DiskError → Option DiskError → Option DiskError
then_ (some e) next = some e
then_ none next = next

-- the checks of one disk, in the order of the source
unfoldable pub validate_disk : Cluster → Checked → NodeDisk → Option DiskError
validate_disk c k d =
    if not (is_worker_of c d.vm_name)
    then some (not_a_worker d.name d.vm_name)
    else then_ (validate_disk_name d.name) (
        if has k.seen (slash d.vm_name d.name)
        then some (duplicate_disk d.name d.vm_name)
        else if ltb 8 (suc (count_of d.vm_name k.nodes))
        then some (too_many d.vm_name)
        else if ltb_ℤ d.size_gb (pos 1) || ltb_ℤ (pos 2000) d.size_gb
        then some (bad_size d.name d.size_gb)
        else if not (text_eq d.fs_type (codes "ext4")) && not (text_eq d.fs_type (codes "xfs"))
        then some (bad_filesystem d.fs_type)
        else then_ (validate_mount_path d.mount_path) (
            if has k.mounts (slash d.vm_name d.mount_path)
            then some (two_mounts d.vm_name d.mount_path)
            else none))

unfoldable pub checked : Checked → NodeDisk → Checked
checked k d = record {
  nodes = d.vm_name ∷ k.nodes;
  seen = slash d.vm_name d.name ∷ k.seen;
  mounts = slash d.vm_name d.mount_path ∷ k.mounts;
}

unfoldable pub validate_disks : Cluster → Checked → List NodeDisk → Option DiskError
validate_disks c k [] = none
validate_disks c k (d ∷ ds) =
    let rest = validate_disks c (checked k d) ds in then_ (validate_disk c k d) rest

abbrev pub nothing_checked : Checked
nothing_checked = record { nodes = []; seen = []; mounts = [] }

unfoldable pub validate_node_disks : Cluster → List NodeDisk → Option DiskError
validate_node_disks c disks = validate_disks c nothing_checked disks
