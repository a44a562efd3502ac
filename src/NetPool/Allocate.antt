-- ===== src/NetPool/Allocate.antt =====
-- internal/netpool/netpool.go: the admission of a cluster's node network (Allocate). The process
-- environment is an argument. An error is a value that says what is formatted.
pub mod Blocks
pub mod Clear
pub mod Aligned
pub mod Disjoint
use kaa_s_demo.Prelude.{
  ℕ, zero, suc, ◌+◌, ◌-◌, ◌*◌, ◌/◌, ◌%◌, ◌^◌, ◌<◌, ◌≤◌, ◌≡◌, Bool, true, false, not, ◌&&◌, ◌||◌,
  Option, none, some, List, [], ◌∷◌, ◌++◌, Text, codes, text_eq, leb, ltb, ◌==◌, if◌then◌else◌,
}
use kaa_s_demo.Prelude.Int.{ℤ, pos, pos_part, ltb_ℤ}
use kaa_s_demo.Prelude.Keys.{is_some}
use kaa_s_demo.Go.Strings.{trim_space, split, atoi}
use kaa_s_demo.Domain.Cluster.{Cluster}
use kaa_s_demo.NetPool.Ip.{IpNet, size, contains, parse_cidr, show_net}

pub data Error : Type 0 where
  not_ipv4_cidr bad_reserved bad_supernet : Text → Error
  prefix_out_of_range : ℕ → Error
  overlaps_reserved overlaps_used : IpNet → IpNet → Error
  bad_prefix : ℤ → IpNet → Error
  no_free_network : ℤ → IpNet → Error

pub data Result {ℓ} (A : Type ℓ) : Type ℓ where
  ok : A → Result A
  err : Error → Result A

infixl 5 ◌>>=◌
abbrev pub ◌>>=◌ {ℓ κ} : {A : Type ℓ} {B : Type κ} → Result A → (A → Result B) → Result B
ok a >>= f = f a
err e >>= f = err e

-- os.Getenv: a variable that is not set is empty
abbrev pub Env : Type 0
Env = Text → Text

abbrev pub min_prefix : ℕ
min_prefix = 16

abbrev pub max_prefix : ℕ
max_prefix = 28

-- defaultReserved, joined by commas
abbrev pub default_reserved : Text
default_reserved = codes "10.244.0.0/16,10.96.0.0/12,10.88.0.0/16,10.89.0.0/16,192.168.122.0/24"

unfoldable pub getenv : Env → Text → Text → Text
unfolding text_eq
getenv env key def = if text_eq (env key) [] then def else env key

unfoldable pub env_int : Env → Text → ℤ → ℤ
unfolding text_eq atoi
env_int env key def =
    if text_eq (env key) [] then def else elim (atoi (env key)) [ none ↦ def | some n ↦ n ]

-- the test of one network: n.Contains(o.IP) || o.Contains(n.IP)
unfoldable pub meets : IpNet → IpNet → Bool
unfolding contains
meets n o = contains n o.ip || contains o n.ip

-- overlapName: the first network of the list that overlaps, if any; its text is never empty
unfoldable pub overlap_name : IpNet → List IpNet → Option IpNet
unfolding meets
overlap_name n [] = none
overlap_name n (o ∷ os) = let rest = overlap_name n os in if meets n o then some o else rest

unfoldable pub overlaps : IpNet → List IpNet → Bool
unfolding overlap_name
overlaps n list = is_some (overlap_name n list)

-- c.DeletedAt != nil || c.NetworkCIDR == ""
abbrev pub has_no_network : Cluster → Bool
has_no_network c = is_some c.deleted_at || text_eq c.network_cidr []

unfoldable pub used_nets : List Cluster → List IpNet
used_nets [] = []
used_nets (c ∷ cs) =
    let rest = used_nets cs in
    if has_no_network c
    then rest
    else elim (parse_cidr c.network_cidr) [ none ↦ rest | some n ↦ n ∷ rest ]

-- the loop of reservedNets
unfoldable pub reserved_from : List Text → Result (List IpNet)
reserved_from [] = ok []
reserved_from (s ∷ ss) =
    let rest = reserved_from ss in
    if text_eq (trim_space s) [] then rest else elim (parse_cidr (trim_space s)) [
      | none ↦ err (bad_reserved (trim_space s))
      | some n ↦ rest >>= λ ns. ok (n ∷ ns)
    ]

unfoldable pub reserved_nets : Env → Result (List IpNet)
unfolding reserved_from
reserved_nets env =
    reserved_from (split b',' (getenv env (codes "KAAS_NET_RESERVED") default_reserved))

unfoldable pub validate_requested : Text → List IpNet → List IpNet → Result IpNet
validate_requested requested reserved used = elim (parse_cidr (trim_space requested)) [
  | none ↦ err (not_ipv4_cidr requested)
  | some n ↦
      if ltb n.ones min_prefix || ltb max_prefix n.ones
      then err (prefix_out_of_range n.ones)
      else elim (overlap_name n reserved) [
        | some o ↦ err (overlaps_reserved n o)
        | none ↦ elim (overlap_name n used) [ some o ↦ err (overlaps_used n o) | none ↦ ok n ]
      ]
]

-- uint32
abbrev pub u32_mod : ℕ
u32_mod = 4294967296

pub data Search : Type 0 where
  found : IpNet → Search
  exhausted out_of_fuel : Search

-- the loop of autoAllocate over the blocks of the supernet, `limit` being start + superSize
unfoldable pub search_blocks : List IpNet → List IpNet → ℕ → ℕ → ℕ → ℕ → ℕ → Search
unfolding overlaps
search_blocks reserved used prefix start limit zero addr = out_of_fuel
search_blocks reserved used prefix start limit (suc fuel) addr =
    let next =
      search_blocks reserved used prefix start limit fuel
        ((addr + size prefix % u32_mod) % u32_mod) in
    let cand : IpNet = record { ip = addr; ones = prefix } in
    if ltb addr limit && leb start addr
    then (if overlaps cand reserved || overlaps cand used then next else found cand)
    else exhausted

-- one more than the blocks of the supernet
abbrev pub block_fuel : ℕ → ℕ → ℕ
block_fuel prefix super_ones = suc (2 ^ (prefix - super_ones))

unfoldable pub search_supernet : List IpNet → List IpNet → ℕ → IpNet → Search
unfolding search_blocks
search_supernet reserved used prefix super =
    search_blocks reserved used prefix super.ip ((super.ip + size super.ones % u32_mod) % u32_mod)
      (block_fuel prefix super.ones) super.ip

abbrev default_supernet : Text
default_supernet = codes "10.200.0.0/16"

unfoldable pub auto_allocate : Env → List IpNet → List IpNet → Result IpNet
auto_allocate env reserved used =
    elim (parse_cidr (getenv env (codes "KAAS_NET_SUPERNET") default_supernet)) [
      | none ↦ err (bad_supernet (getenv env (codes "KAAS_NET_SUPERNET") default_supernet))
      | some super ↦
          let prefix = env_int env (codes "KAAS_NET_PREFIX") (pos 24) in
          if ltb_ℤ prefix (pos super.ones) || ltb_ℤ (pos max_prefix) prefix
          then err (bad_prefix prefix super)
          else elim (search_supernet reserved used (pos_part prefix) super) [
            | found n ↦ ok n
            | exhausted ↦ err (no_free_network prefix super)
            | out_of_fuel ↦ err (no_free_network prefix super)
          ]
    ]

-- Allocate: the network, whose text the cluster keeps
unfoldable pub allocate : Env → List Cluster → Text → Result Text
allocate env existing requested = do
  reserved ← reserved_nets env
  let used = used_nets existing
  n ←
      if text_eq (trim_space requested) []
      then auto_allocate env reserved used
      else validate_requested requested reserved used
  ok (show_net n)
