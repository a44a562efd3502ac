-- ===== src/Domain/Node.antt =====
-- internal/domain/domain.go: node sizes, node pools, nodes, their extra disks, and add-ons.
use kaa_s_demo.Prelude.{Option, none, some, if◌then◌else◌, Text, codes, text_eq}
use kaa_s_demo.Prelude.Int.{ℤ, pos, ltb_ℤ}
use kaa_s_demo.Domain.Phase.{Role, DiskPhase}

pub record SizeSpec : Type 0 where
  pub cpus : ℤ
  pub mem_mb : ℤ
  pub disk_gb : ℤ
  pub control_planes : ℤ

-- the zero value, which `Sizes[name]` gives for a name that is not there
abbrev pub no_size : SizeSpec
no_size = record { cpus = pos 0; mem_mb = pos 0; disk_gb = pos 0; control_planes = pos 0 }

abbrev small_size : SizeSpec
small_size = record { cpus = pos 2; mem_mb = pos 8192; disk_gb = pos 50; control_planes = pos 1 }

abbrev medium_size : SizeSpec
medium_size = record { cpus = pos 4; mem_mb = pos 16384; disk_gb = pos 50; control_planes = pos 1 }

abbrev large_size : SizeSpec
large_size = record { cpus = pos 8; mem_mb = pos 32768; disk_gb = pos 50; control_planes = pos 1 }

-- spec, ok := Sizes[name]
unfoldable pub sizes : Text → Option SizeSpec
unfolding text_eq
sizes name =
    if text_eq name (codes "small")
    then some small_size
    else if text_eq name (codes "medium")
    then some medium_size
    else if text_eq name (codes "large")
    then some large_size
    else none

abbrev or_no_size : Option SizeSpec → SizeSpec
or_no_size none = no_size
or_no_size (some s) = s

-- Sizes[name]
unfoldable pub size_of : Text → SizeSpec
unfolding sizes
size_of name = or_no_size (sizes name)

pub record NodePool : Type 0 where
  pub name : Text
  pub size : Text
  pub desired_workers : ℤ
  pub disk_gb : ℤ

unfoldable pub root_disk_gb : NodePool → ℤ
unfolding size_of
root_disk_gb p = if ltb_ℤ (pos 0) p.disk_gb then p.disk_gb else (size_of p.size).disk_gb

pub record Node : Type 0 where
  pub id : Text
  pub role : Role
  pub vm_name : Text
  pub pool : Text
  pub ip : Text
  pub mac : Text
  pub phase : Text
  pub image : Text

pub record NodeDisk : Type 0 where
  pub vm_name : Text
  pub name : Text
  pub size_gb : ℤ
  pub mount_path : Text
  pub fs_type : Text
  pub phase : DiskPhase
  pub wwn : Text
  pub device_id : Text

pub record Addon : Type 0 where
  pub name : Text
  pub version : Text
  pub phase : Text
  pub values_override : Text
  pub catalog_id : Text
  pub chart : Text
  pub repo : Text
  pub namespace : Text
  pub description : Text
