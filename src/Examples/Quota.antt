-- ===== src/Examples/Quota.antt =====
-- Quotas and desired nodes: the theorems at concrete inputs, and tests of the definitions.
use kaa_s_demo.Domain.Node.{sizes}
use kaa_s_demo.Prelude.Any.{any}
use kaa_s_demo.Prelude.{arith, ◌↔◌, Text, text_eq, ◌≡◌, List, [], ◌∷◌, codes, refl, false, none}
use kaa_s_demo.Prelude.Int.{ℤ, pos}
use kaa_s_demo.Prelude.Dict.{empty, put, get}
use kaa_s_demo.Domain.User.{User, ResourceQuota, quota_on}
use kaa_s_demo.Domain.Desired.{
  name_rest, pool_name_re, validate_pool_name, validate_pool, validate_pools, validate_node_pools,
  node_vm_names,
}
use kaa_s_demo.Domain.Desired.Names.{AllDistinct}
use kaa_s_demo.Domain.Desired.Distinct.{node_vm_names_distinct}
use kaa_s_demo.Quota.{Budget, check_allocation}
use kaa_s_demo.Quota.Pool.{FitsInt, Within, check_allocation_iff, AllNonneg, total}
use kaa_s_demo.Examples.Samples.{cluster}

pools_checked : validate_node_pools cluster.name cluster.node_pools ≡ none
unfolding validate_node_pools validate_pools validate_pool validate_pool_name pool_name_re name_rest
    any sizes text_eq
pools_checked = refl

node_vm_names_distinct_example : AllDistinct (node_vm_names cluster)
node_vm_names_distinct_example = node_vm_names_distinct cluster pools_checked

abbrev kvm : Text
kvm = codes "kvm"

abbrev amount : ℤ → ResourceQuota
amount n = record { vcpu = n; mem_mb = n; disk_gb = n }

abbrev user : Text → ResourceQuota → User
user id q = record {
  id = id;
  username = id;
  password_hash = [];
  auth_source = [];
  display_name = [];
  email = [];
  is_admin = false;
  quotas = put empty kvm q;
  memberships = [];
  created_at = 1;
}

abbrev users : List User
users = user (codes "a") (amount (pos 3)) ∷ user (codes "b") (amount (pos 4)) ∷ []

abbrev budget : Budget
budget = record { total_vcpu = pos 10; total_mem_mb = pos 10; total_disk_gb = pos 10 }

fits :
    FitsInt (λ q. q.vcpu) users kvm (amount (pos 6))
    × FitsInt (λ q. q.mem_mb) users kvm (amount (pos 6))
    × FitsInt (λ q. q.disk_gb) users kvm (amount (pos 6))
unfolding FitsInt AllNonneg total quota_on get put empty text_eq
fits = (
  ((refl, (refl, tt)), omega arith),
  ((refl, (refl, tt)), omega arith),
  ((refl, (refl, tt)), omega arith),
)

check_allocation_iff_example :
    (check_allocation budget users (codes "a") kvm (amount (pos 6)) ≡ none) ↔ (
      Within (λ q. q.vcpu) budget.total_vcpu users (codes "a") kvm (amount (pos 6))
      × Within (λ q. q.mem_mb) budget.total_mem_mb users (codes "a") kvm (amount (pos 6))
      × Within (λ q. q.disk_gb) budget.total_disk_gb users (codes "a") kvm (amount (pos 6)))
check_allocation_iff_example =
    check_allocation_iff budget users (codes "a") kvm (amount (pos 6)) fits.0 fits.1 fits.2
