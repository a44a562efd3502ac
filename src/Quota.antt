-- ===== src/Quota.antt =====
-- internal/quota/quota.go: what clusters use, what is granted, and the admission of both. Go's `int`
-- wraps at 64 bits. No error is `none`.
pub mod Pool
pub mod Wrap
use kaa_s_demo.Prelude.{
  not, ◌&&◌, text_eq, ◌||◌, Text, Option, Bool, if◌then◌else◌, List, [], ◌∷◌, none, some, true,
  false,
}
use kaa_s_demo.Prelude.Int.{ℤ, pos, ltb_ℤ}
use kaa_s_demo.Go.Int64.{add64, sub64}
use kaa_s_demo.Domain.Phase.{is_deleting, Phase, terminal}
use kaa_s_demo.Domain.Node.{NodeDisk}
use kaa_s_demo.Domain.Cluster.{Cluster}
use kaa_s_demo.Domain.User.{User, ResourceQuota, no_quota, quota_on}
use kaa_s_demo.Domain.Desired.{DesiredNode, desired_nodes}

-- Budget: TotalVCPU, TotalMemMB and TotalDiskGB
pub record Budget : Type 0 where
  pub total_vcpu : ℤ
  pub total_mem_mb : ℤ
  pub total_disk_gb : ℤ

-- the three sums of a loop, by one round of `+=` and of `-=`
abbrev pub plus : ResourceQuota → ResourceQuota → ResourceQuota
plus a q = record {
  vcpu = add64 a.vcpu q.vcpu;
  mem_mb = add64 a.mem_mb q.mem_mb;
  disk_gb = add64 a.disk_gb q.disk_gb;
}

abbrev pub minus : ResourceQuota → ResourceQuota → ResourceQuota
minus a q = record {
  vcpu = sub64 a.vcpu q.vcpu;
  mem_mb = sub64 a.mem_mb q.mem_mb;
  disk_gb = sub64 a.disk_gb q.disk_gb;
}

unfoldable pub nodes_usage : ResourceQuota → List DesiredNode → ResourceQuota
nodes_usage a [] = a
nodes_usage a (n ∷ ns) =
    nodes_usage
      (plus a (record { vcpu = n.spec.cpus; mem_mb = n.spec.mem_mb; disk_gb = n.spec.disk_gb })) ns

unfoldable pub disks_usage : ResourceQuota → List NodeDisk → ResourceQuota
disks_usage a [] = a
disks_usage a (d ∷ ds) = disks_usage (record a { disk_gb = add64 a.disk_gb d.size_gb }) ds

unfoldable pub cluster_usage : Cluster → ResourceQuota
cluster_usage c = disks_usage (nodes_usage no_quota (desired_nodes c)) c.node_disks

-- c.Phase.Terminal() || c.Phase == domain.PhaseDeleting
abbrev pub is_gone : Phase → Bool
is_gone p = terminal p || is_deleting p

unfoldable pub usage_from : ResourceQuota → List Cluster → ResourceQuota
usage_from a [] = a
usage_from a (c ∷ cs) = usage_from (if is_gone c.phase then a else plus a (cluster_usage c)) cs

unfoldable pub usage : List Cluster → ResourceQuota
usage existing = usage_from no_quota existing

unfoldable pub allocated_from : ResourceQuota → List User → Text → ResourceQuota
allocated_from a [] provider = a
allocated_from a (u ∷ us) provider =
    allocated_from (if u.is_admin then a else plus a (quota_on u provider)) us provider

unfoldable pub allocated : List User → Text → ResourceQuota
allocated users provider = allocated_from no_quota users provider

abbrev floored : ℤ → ℤ
floored z = if ltb_ℤ z (pos 0) then pos 0 else z

unfoldable pub unallocated : Budget → List User → Text → ResourceQuota
unallocated b users provider =
    let alloc = allocated users provider in
    record {
      vcpu = floored (sub64 b.total_vcpu alloc.vcpu);
      mem_mb = floored (sub64 b.total_mem_mb alloc.mem_mb);
      disk_gb = floored (sub64 b.total_disk_gb alloc.disk_gb);
    }

-- what the checks report: the amounts are those that are compared
pub data QuotaError : Type 0 where
  negative : QuotaError
  vcpu_exceeded mem_exceeded disk_exceeded : ℤ → ℤ → ℤ → QuotaError

-- `sum > total` in each dimension, in order
unfoldable pub exceeds_budget : Budget → ResourceQuota → ResourceQuota → Option QuotaError
exceeds_budget b have want =
    if ltb_ℤ b.total_vcpu (add64 have.vcpu want.vcpu)
    then some (vcpu_exceeded have.vcpu want.vcpu b.total_vcpu)
    else if ltb_ℤ b.total_mem_mb (add64 have.mem_mb want.mem_mb)
    then some (mem_exceeded have.mem_mb want.mem_mb b.total_mem_mb)
    else if ltb_ℤ b.total_disk_gb (add64 have.disk_gb want.disk_gb)
    then some (disk_exceeded have.disk_gb want.disk_gb b.total_disk_gb)
    else none

-- the loop that takes the user's current grant off, once
unfoldable pub without_grant : ResourceQuota → List User → Text → Text → ResourceQuota
without_grant a [] user_id provider = a
without_grant a (u ∷ us) user_id provider =
    let rest = without_grant a us user_id provider in
    if text_eq u.id user_id && not u.is_admin then minus a (quota_on u provider) else rest

abbrev has_negative : ResourceQuota → Bool
has_negative q = (ltb_ℤ q.vcpu (pos 0) || ltb_ℤ q.mem_mb (pos 0)) || ltb_ℤ q.disk_gb (pos 0)

unfoldable pub check_allocation :
    Budget → List User → Text → Text → ResourceQuota → Option QuotaError
check_allocation b users user_id provider grant =
    if has_negative grant
    then some negative
    else exceeds_budget b (without_grant (allocated users provider) users user_id provider) grant

unfoldable pub check : Budget → List Cluster → Cluster → Option QuotaError
check b existing want = exceeds_budget b (usage existing) (cluster_usage want)
