-- ===== src/Reconcile/Seams.antt =====
-- internal/reconcile: what the reconciler calls and does not implement, as the answers that one tick
-- gets: the configuration manager (Ansible), the provisioner, the add-on manager (Helm), DNS, Vault,
-- the image registry and the secret box. `none` and `false` are errors. A seam that the deployment
-- does not have is disabled; a provider
-- that cannot do something answers `false`, and one that keeps no images has all of them.
use kaa_s_demo.Domain.Observed.{EtcdStatus}
use kaa_s_demo.Domain.Node.{Addon, NodeDisk, Node}
use kaa_s_demo.Go.Time.{Time}
use kaa_s_demo.Domain.Cluster.{Cluster}
use kaa_s_demo.Prelude.{◌&&◌, [], text_eq, Option, not, List, Text, Bool}
use kaa_s_demo.Reconcile.Nodes.{NodeSpec, ProvisionedNode}
use kaa_s_demo.Etcd.Snapshot.{EtcdSnapshot}

-- registry.RobotCredential
pub record RobotCredential : Type 0 where
  pub username : Text
  pub secret : Text
  pub expires : Time

-- RobotCredential.Valid
unfoldable pub is_valid_credential : RobotCredential → Bool
is_valid_credential r = not (text_eq r.username []) && not (text_eq r.secret [])

pub record Seams : Type 0 where
  pub ensure_nodes : Cluster → List NodeSpec → Option (List ProvisionedNode)
  pub image_available : Cluster → Text → Bool
  pub replace_vm : Cluster → Node → Bool
  pub power_on : Cluster → Node → Bool
  pub destroy_cluster : Cluster → Bool
  pub init_control_plane : Cluster → Option (Text × Text)
  pub join_workers : Cluster → Bool
  pub remove_workers : Cluster → List Node → Bool
  pub backup_control_plane : Cluster → Node → Bool
  pub restore_control_plane : Cluster → Node → Bool
  pub remove_control_plane : Cluster → Node → Bool
  pub join_control_plane : Cluster → Node → Bool
  pub restart_kubelet : Cluster → Node → Bool
  pub restore_etcd_snapshot : Cluster → Node → Text → Bool
  pub upgrade_kubernetes : Cluster → Text → Bool
  pub install_cni : Cluster → Bool
  pub ensure_viewer_kubeconfig : Cluster → Option Text
  pub ensure_node_disks : Cluster → Bool
  pub evict_longhorn_disks : Cluster → List NodeDisk → Bool
  pub remove_node_disks : Cluster → List NodeDisk → Bool
  pub ensure_control_plane_metrics : Cluster → Bool
  pub ensure_cni_metrics : Cluster → Bool
  pub ensure_default_gateway : Cluster → Bool
  pub ensure_longhorn_disks : Cluster → Bool
  pub ensure_external_secrets : Cluster → Bool
  pub ensure_registry_pull_secret : Cluster → Text → Text → Bool
  pub cert_expiry : Cluster → Option Time
  pub renew_certs : Cluster → Time → Option (Text × Time)
  pub etcd_status : Cluster → Option EtcdStatus
  pub defrag_etcd : Cluster → Option EtcdStatus
  pub snapshot_etcd : Cluster → Option (EtcdSnapshot × Text)
  pub install_addon : Cluster → Addon → Text → Bool
  pub uninstall_addon : Cluster → Addon → Text → Bool
  pub dns_enabled : Bool
  pub dns_ensure : Cluster → Bool
  pub dns_release : Cluster → Bool
  pub vault_enabled : Bool
  pub eso_auth : Cluster → Bool
  pub vault_ensure : Cluster → Bool
  pub vault_release : Cluster → Bool
  pub registry_enabled : Bool
  pub registry_ensure : Cluster → Option RobotCredential
  pub registry_release : Cluster → Bool
  pub seal : Text → Option Text
  pub unseal : Text → Option Text
  pub marshal : RobotCredential → Option Text
  pub unmarshal : Text → Option RobotCredential
