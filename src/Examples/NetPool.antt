-- ===== src/Examples/NetPool.antt =====
-- Node networks: the theorems at concrete inputs, and tests of the definitions.
use kaa_s_demo.Domain.Cluster.{Cluster}
use kaa_s_demo.Go.Strings.{split, trim_space, cut, unsigned, atoi, digits_from, is_space}
use kaa_s_demo.Go.Decimal.{decimal}
use kaa_s_demo.Prelude.{
  text_eq, ◌-◌, get_elem?, some, ℕ, ◌+◌, ◌↔◌, arith, Text, ◌<◌, List, ◌≡◌, [], ◌∷◌, codes, refl,
  true, false,
}
use kaa_s_demo.NetPool.Ip.{
  octets, masked, show_ip, contains, octet_digit, contains, IpNet, size, parse_cidr, show_net,
  parse_ip,
}
use kaa_s_demo.NetPool.Ip.Aligned.{IsNet}
use kaa_s_demo.NetPool.Ip.Overlap.{meets_iff}
use kaa_s_demo.NetPool.Allocate.{
  exhausted, allocate, Env, ok, reserved_nets, used_nets, reserved_from, validate_requested,
  auto_allocate, search_supernet, search_blocks, overlaps, overlap_name, meets, getenv, env_int,
  has_no_network,
}
use kaa_s_demo.NetPool.Allocate.Blocks.{search_supernet-FirstFree, search_supernet-last, FirstFree}
use kaa_s_demo.NetPool.Allocate.Clear.{Apart}
use kaa_s_demo.NetPool.Allocate.Disjoint.{AllApart, allocate-AllApart, allocate-IsClear}
use kaa_s_demo.NetPool.Derive.{vip_address, lb_address, gateway_address}
use kaa_s_demo.NetPool.Derive.Order.{derived_order}
use kaa_s_demo.Examples.Samples.{cluster}

abbrev no_env : Env
no_env key = []

-- the first cluster's network is 10.200.0.0/24
abbrev second : Text
second = codes "10.200.1.0/24"

allocates_second : allocate no_env (cluster ∷ []) [] ≡ ok second
unfolding allocate reserved_nets reserved_from split getenv trim_space parse_cidr cut parse_ip
    octets unsigned auto_allocate env_int masked search_supernet used_nets show_net show_ip decimal
    atoi digits_from is_space meets overlap_name overlaps search_blocks validate_requested contains
    octet_digit text_eq
allocates_second = refl

allocate-IsClear_example :
    (n : IpNet) × (reserved : List IpNet) × (parse_cidr second ≡ some n)
    × (reserved_nets no_env ≡ ok reserved)
    × ((i : ℕ) (o : IpNet) → get_elem? reserved i ≡ some o → Apart n o)
    × ((i : ℕ) (c : Cluster) (o : IpNet)
        → get_elem? (cluster ∷ []) i ≡ some c
        → has_no_network c ≡ false
        → parse_cidr c.network_cidr ≡ some o
        → Apart n o)
allocate-IsClear_example = allocate-IsClear no_env (cluster ∷ []) [] second allocates_second

allocates_first : allocate no_env [] [] ≡ ok cluster.network_cidr
unfolding allocate reserved_nets reserved_from split getenv trim_space parse_cidr cut parse_ip
    octets unsigned auto_allocate env_int masked search_supernet used_nets show_net show_ip decimal
    atoi digits_from is_space meets overlap_name overlaps search_blocks validate_requested contains
    octet_digit text_eq
allocates_first = refl

nothing_yet : AllApart []
unfolding AllApart
nothing_yet i j c d n o ne gi gj = cc

one_network : AllApart (cluster ∷ [])
one_network = allocate-AllApart no_env [] [] cluster nothing_yet allocates_first

abbrev cluster_2 : Cluster
cluster_2 = record cluster { network_cidr = second }

allocate-AllApart_example : AllApart (cluster_2 ∷ cluster ∷ [])
allocate-AllApart_example =
    allocate-AllApart no_env (cluster ∷ []) [] cluster_2 one_network allocates_second

-- 10.200.0.0/16
abbrev super : IpNet
super = record { ip = 180879360; ones = 16 }

abbrev first_net : IpNet
first_net = record { ip = 180879360; ones = 24 }

search_supernet-FirstFree_example :
    FirstFree [] (first_net ∷ []) super.ip 24 0 256 (search_supernet [] (first_net ∷ []) 24 super)
search_supernet-FirstFree_example =
    search_supernet-FirstFree [] (first_net ∷ []) 24 super (omega arith) (omega arith) (omega arith)

-- 255.255.0.0/16
abbrev top_super : IpNet
top_super = record { ip = 4294901760; ones = 16 }

search_supernet-last_example : search_supernet [] [] 24 top_super ≡ exhausted
search_supernet-last_example = search_supernet-last [] [] 24 top_super refl

meets_iff_example :
    (meets super first_net ≡ true)
    ↔ ((x : ℕ) × (contains super x ≡ true) × (contains first_net x ≡ true))
meets_iff_example = meets_iff super first_net

first_net-IsNet : IsNet first_net
first_net-IsNet = record { aligned = refl; short = omega arith; fits = omega arith }

derived_order_example :
    (first_net.ip < gateway_address first_net)
    × (gateway_address first_net < lb_address first_net)
    × (lb_address first_net < vip_address first_net)
    × (vip_address first_net < first_net.ip + size first_net.ones - 1)
derived_order_example = derived_order first_net first_net-IsNet (omega arith) (omega arith)
