-- ===== src/Domain/Phase.antt =====
-- internal/domain/domain.go: the enumerations of a cluster. Go's string constants are constructors.
use kaa_s_demo.Prelude.{codes, Text, Bool, true, false}

pub data Phase : Type 0 where
  pending provisioning_infra infra_ready control_plane_ready workers_ready : Phase
  installing_addons ready updating upgrading renewing_certs defragmenting_etcd : Phase
  snapshotting_etcd repairing deleting deleted failed : Phase

-- p == PhaseReady
abbrev pub is_ready : Phase → Bool
is_ready ready = true
is_ready _ = false

-- p == PhaseDeleting
abbrev pub is_deleting : Phase → Bool
is_deleting deleting = true
is_deleting _ = false

abbrev pub terminal : Phase → Bool
terminal deleted = true
terminal failed = true
terminal _ = false

pub data Role : Type 0 where
  control_plane worker : Role

-- r == RoleControlPlane
abbrev pub is_control_plane : Role → Bool
is_control_plane control_plane = true
is_control_plane worker = false

pub data DiskPhase : Type 0 where
  pending attached removing : DiskPhase

-- SecretKubeconfig, SecretKubeconfigViewer, SecretJoinToken, SecretSSHKey, SecretRegistryPull
pub data SecretKind : Type 0 where
  kubeconfig kubeconfig_viewer join_token ssh_key registry_pull : SecretKind

-- string(kind)
unfoldable pub kind_text : SecretKind → Text
kind_text kubeconfig = codes "kubeconfig"
kind_text kubeconfig_viewer = codes "kubeconfig_viewer"
kind_text join_token = codes "join_token"
kind_text ssh_key = codes "ssh_key"
kind_text registry_pull = codes "registry_pull"
