-- ===== src/Domain/Desired.antt =====
-- internal/domain/domain.go: the nodes that a cluster should have, and the checks of its pools.
pub mod Names
pub mod Distinct
use kaa_s_demo.Prelude.Any.{any}
use kaa_s_demo.Prelude.{
  ◌+◌, length, ltb, text_eq, ◌==◌, codes, leb, ◌||◌, not, if◌then◌else◌, ◌++◌, ◌&&◌, ℕ, Bool, List,
  Option, Text, [], ◌∷◌, none, some, true, false, zero, suc,
}
use kaa_s_demo.Prelude.Int.{ℤ, pos, pos_part, ltb_ℤ}
use kaa_s_demo.Go.Decimal.{decimal}
use kaa_s_demo.Domain.Phase.{Role, control_plane, worker}
use kaa_s_demo.Domain.Node.{SizeSpec, size_of, sizes, NodePool, root_disk_gb}
use kaa_s_demo.Domain.Cluster.{Cluster, control_plane_count}

pub record DesiredNode : Type 0 where
  pub vm_name : Text
  pub role : Role
  pub pool : Text
  pub spec : SizeSpec

abbrev pub control_plane_infix : Text
control_plane_infix = codes "cp"

-- fmt.Sprintf("%s-%s-%d", cluster, infix, i)
unfoldable pub vm_name_of : Text → Text → ℕ → Text
vm_name_of cluster infix_ i = cluster ++ b'-' ∷ (infix_ ++ b'-' ∷ decimal i)

-- `for i := 0; i < n; i++`, from `i`, with `left` rounds to go
unfoldable pub nodes_from : (ℕ → DesiredNode) → ℕ → ℕ → List DesiredNode
nodes_from f i zero = []
nodes_from f i (suc left) = f i ∷ nodes_from f (suc i) left

abbrev pub control_plane_node : Cluster → ℕ → DesiredNode
control_plane_node c i = record {
  vm_name = vm_name_of c.name control_plane_infix i;
  role = control_plane;
  pool = [];
  spec = size_of c.size;
}

-- the size of a pool's nodes: its root disk replaces the one of its size
abbrev pub pool_spec : NodePool → SizeSpec
pool_spec p = record (size_of p.size) { disk_gb = root_disk_gb p }

abbrev pub pool_node : Text → NodePool → ℕ → DesiredNode
pool_node name p i = record {
  vm_name = vm_name_of name p.name i;
  role = worker;
  pool = p.name;
  spec = pool_spec p;
}

unfoldable pub pool_nodes : Text → List NodePool → List DesiredNode
pool_nodes name [] = []
pool_nodes name (p ∷ ps) =
    nodes_from (pool_node name p) 0 (pos_part p.desired_workers) ++ pool_nodes name ps

unfoldable pub desired_nodes : Cluster → List DesiredNode
desired_nodes c =
    nodes_from (control_plane_node c) 0 (pos_part (control_plane_count c))
    ++ pool_nodes c.name c.node_pools

unfoldable pub vm_names : List DesiredNode → List Text
vm_names [] = []
vm_names (n ∷ ns) = n.vm_name ∷ vm_names ns

unfoldable pub node_vm_names : Cluster → List Text
node_vm_names c = vm_names (desired_nodes c)

pub data PoolError : Type 0 where
  name_required : PoolError
  bad_name reserved_name duplicate_pool : Text → PoolError
  too_long unknown_size : Text → Text → PoolError
  negative_workers : Text → ℤ → PoolError
  disk_too_small disk_too_large : Text → ℤ → PoolError

abbrev is_zero_ℤ : ℤ → Bool
is_zero_ℤ z = not (ltb_ℤ z (pos 0)) && not (ltb_ℤ (pos 0) z)

abbrev is_alnum : ℕ → Bool
is_alnum c = (leb b'a' c && leb c b'z') || (leb b'0' c && leb c b'9')

-- the last character of a name, and those before it
unfoldable pub name_rest : Text → Bool
name_rest [] = true
name_rest (c ∷ []) = is_alnum c
name_rest (c ∷ d ∷ cs) = let rest = name_rest (d ∷ cs) in (is_alnum c || c == b'-') && rest

-- poolNameRE
unfoldable pub pool_name_re : Text → Bool
pool_name_re [] = false
pool_name_re (c ∷ cs) = is_alnum c && name_rest cs

-- ValidatePoolName: no error is `none`
unfoldable pub validate_pool_name : Text → Text → Option PoolError
validate_pool_name cluster_name name =
    if text_eq name []
    then some name_required
    else if not (pool_name_re name)
    then some (bad_name name)
    else if text_eq name control_plane_infix
    then some (reserved_name name)
    else if ltb 63 (length cluster_name + length name + 5)
    then some (too_long name cluster_name)
    else none

-- MaxRootDiskGB
abbrev pub max_root_disk_gb : ℤ
max_root_disk_gb = pos 2000

-- the checks of one pool after those of its name
unfoldable pub validate_pool : NodePool → Option PoolError
validate_pool p = elim (sizes p.size) [
  | none ↦ some (unknown_size p.name p.size)
  | some spec ↦
      if ltb_ℤ p.desired_workers (pos 0)
      then some (negative_workers p.name p.desired_workers)
      else if is_zero_ℤ p.disk_gb
      then none
      else if ltb_ℤ p.disk_gb spec.disk_gb
      then some (disk_too_small p.name p.disk_gb)
      else if ltb_ℤ max_root_disk_gb p.disk_gb
      then some (disk_too_large p.name p.disk_gb)
      else none
]

-- the loop over the pools, with the names that are `seen`
unfoldable pub validate_pools : Text → List Text → List NodePool → Option PoolError
validate_pools cluster_name seen [] = none
validate_pools cluster_name seen (p ∷ ps) =
    let rest = validate_pools cluster_name (p.name ∷ seen) ps in
    elim (validate_pool_name cluster_name p.name) [
      | some e ↦ some e
      | none ↦
          if any (λ n. text_eq n p.name) seen
          then some (duplicate_pool p.name)
          else elim (validate_pool p) [ some e ↦ some e | none ↦ rest ]
    ]

unfoldable pub validate_node_pools : Text → List NodePool → Option PoolError
validate_node_pools cluster_name pools = validate_pools cluster_name [] pools
