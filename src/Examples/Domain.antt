-- ===== src/Examples/Domain.antt =====
-- The checks of extra disks at a concrete cluster.
use kaa_s_demo.Domain.Phase.{pending}
use kaa_s_demo.Prelude.Int.{pos}
use kaa_s_demo.Prelude.Keys.{has, IsDistinct}
use kaa_s_demo.Domain.Node.{NodeDisk}
use kaa_s_demo.Domain.Disks.{has_prefix}
use kaa_s_demo.Prelude.Any.{any, All}
use kaa_s_demo.Go.Strings.{split}
use kaa_s_demo.Domain.Desired.{desired_nodes, name_rest, pool_name_re}
use kaa_s_demo.Prelude.{refl, ◌≤◌, ◌≡◌, ◌++◌, codes, text_eq, map, List, Text, [], ◌∷◌, none, some}
use kaa_s_demo.Domain.Admission.Sound.{
  validate_node_disks_sound, IsUsable, disk_key, mount_key, disk_vm,
}
use kaa_s_demo.Domain.Admission.{
  validate_node_disks, validate_disks, validate_disk, validate_disk_name, validate_mount_path,
  is_worker_of, count_of, checked, clean, clean_onto, rooted, validate_user_disk_name, DiskError,
}
use kaa_s_demo.Domain.Desired.{
  nodes_from, pool_nodes, vm_name_of, desired_nodes, pool_name_re, name_rest,
}
use kaa_s_demo.Domain.Cluster.{control_plane_count}
use kaa_s_demo.Go.Decimal.{decimal}
use kaa_s_demo.Examples.Samples.{cluster, w_0}

abbrev disk : Text → NodeDisk
disk name = record {
  vm_name = w_0;
  name = name;
  size_gb = pos 10;
  fs_type = codes "ext4";
  mount_path = codes "/" ++ name;
  wwn = [];
  phase = pending;
  device_id = [];
}

abbrev disks : List NodeDisk
disks = disk (codes "data") ∷ disk (codes "logs") ∷ []

disks_accepted : validate_node_disks cluster disks ≡ none
unfolding validate_node_disks validate_disks validate_disk validate_disk_name validate_mount_path
    is_worker_of count_of checked clean clean_onto rooted split has_prefix pool_name_re name_rest
    any text_eq desired_nodes has nodes_from control_plane_count pool_nodes vm_name_of decimal
disks_accepted = refl

-- the name that the platform's own disk has
reserved_disk :
    validate_user_disk_name (codes "storage") ≡ some (DiskError.reserved (codes "storage"))
unfolding validate_user_disk_name validate_disk_name pool_name_re name_rest text_eq
reserved_disk = refl

validate_node_disks_sound_example :
    All (IsUsable cluster) disks
    × IsDistinct (map disk_key disks)
    × IsDistinct (map mount_key disks)
    × ((vm : Text) → count_of vm (map disk_vm disks) ≤ 8)
validate_node_disks_sound_example = validate_node_disks_sound cluster disks disks_accepted
