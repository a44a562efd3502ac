-- ===== src/Domain/Cluster.antt =====
-- internal/domain/domain.go: the cluster, and the questions about it that need nothing else.
use kaa_s_demo.Prelude.{
  ℕ, Bool, true, false, not, ◌&&◌, Option, none, some, List, [], ◌∷◌, ◌==◌, if◌then◌else◌, Text,
  text_eq, codes,
}
use kaa_s_demo.Prelude.Int.{ℤ, pos, ltb_ℤ}
use kaa_s_demo.Prelude.Dict.{Dict}
use kaa_s_demo.Go.Int64.{add64}
use kaa_s_demo.Go.Time.{Time, before}
use kaa_s_demo.Domain.Phase.{Phase, is_ready, terminal, is_control_plane}
use kaa_s_demo.Domain.Node.{size_of, NodePool, Node, NodeDisk, Addon}
use kaa_s_demo.Domain.Observed.{EtcdStatus, ClusterRepair}

pub record Cluster : Type 0 where
  pub id : Text
  pub name : Text
  pub owner_id : Text
  pub size : Text
  pub node_pools : List NodePool
  pub node_disks : List NodeDisk
  pub provider : Text
  pub network_cidr : Text
  pub pod_cidr : Text
  pub svc_cidr : Text
  pub network_name : Text
  pub ip_mode : Text
  pub net_gateway : Text
  pub net_dns : Text
  pub static_ips : Dict Text
  pub control_planes : ℤ
  pub api_vip : Text
  pub load_balancer_ip : Text
  pub dns_domain : Text
  pub apps_domain : Text
  pub bundle : Text
  pub os_image : Text
  pub k8s_version : Text
  pub cni : Text
  pub cni_version : Text
  pub target_bundle : Text
  pub phase : Phase
  pub status : Text
  pub generation : ℕ
  pub observed_generation : ℕ
  pub monitoring_wired : Bool
  pub gateway_wired : Bool
  pub dns_wired : Bool
  pub vault_wired : Bool
  pub registry_wired : Bool
  pub registry_robot_not_after : Option Time
  pub storage_wired : Text
  pub storage_disk_gb : ℤ
  pub cert_not_after : Option Time
  pub etcd : Option EtcdStatus
  pub etcd_snapshot_at : Option Time
  pub repair : Option ClusterRepair
  pub nodes : List Node
  pub addons : List Addon
  pub created_at : Time
  pub deleted_at : Option Time

unfoldable pub infra_provider : Cluster → Text
unfolding text_eq
infra_provider c = if text_eq c.provider [] then codes "kvm" else c.provider

unfoldable pub control_plane_count : Cluster → ℤ
unfolding size_of
control_plane_count c =
    if ltb_ℤ (pos 0) c.control_planes then c.control_planes else (size_of c.size).control_planes

unfoldable pub ha : Cluster → Bool
unfolding control_plane_count
ha c = ltb_ℤ (pos 1) (control_plane_count c)

pools_workers : ℤ → List NodePool → ℤ
pools_workers n [] = n
pools_workers n (p ∷ ps) = pools_workers (add64 n p.desired_workers) ps

unfoldable pub worker_count : Cluster → ℤ
unfolding pools_workers add64
worker_count c = pools_workers (pos 0) c.node_pools

-- c.Phase == PhaseReady && c.ObservedGeneration == c.Generation, the guard of every periodic task
abbrev pub is_converged : Cluster → Bool
is_converged c = is_ready c.phase && (c.observed_generation == c.generation)

unfoldable pub needs_work : Cluster → Bool
needs_work c = if terminal c.phase then false else not (is_converged c)

unfoldable pub upgrade_pending : Cluster → Bool
unfolding text_eq
upgrade_pending c = not (text_eq c.target_bundle []) && not (text_eq c.target_bundle c.bundle)

-- c.CertNotAfter == nil || c.CertNotAfter.Before(cutoff)
abbrev expires_before : Option Time → Time → Bool
expires_before none cutoff = true
expires_before (some t) cutoff = before t cutoff

unfoldable pub cert_renewal_due : Cluster → Time → Bool
cert_renewal_due c cutoff =
    if not (is_converged c) then false else expires_before c.cert_not_after cutoff

-- workersOf, and controlPlanesOf: a cluster's nodes by role, in their order.
pub nodes_with : (Node → Bool) → List Node → List Node
nodes_with p [] = []
nodes_with p (n ∷ ns) = let rest = nodes_with p ns in if p n then n ∷ rest else rest

unfoldable pub workers_of : Cluster → List Node
unfolding nodes_with
workers_of c = nodes_with (λ n. not (is_control_plane n.role)) c.nodes

unfoldable pub control_planes_of : Cluster → List Node
unfolding nodes_with
control_planes_of c = nodes_with (λ n. is_control_plane n.role) c.nodes
