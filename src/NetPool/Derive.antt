-- ===== src/NetPool/Derive.antt =====
-- internal/netpool/netpool.go: the addresses that a node network's CIDR determines: VIP,
-- LoadBalancerIP and Gateway, in uint32 arithmetic. `none` is the error.
pub mod Order
use kaa_s_demo.Prelude.{ℕ, ◌+◌, ◌-◌, ◌%◌, ◌<◌, ◌≤◌, Option, none, some, Text, ltb, if◌then◌else◌}
use kaa_s_demo.NetPool.Ip.{IpNet, size, parse_cidr, show_ip}
use kaa_s_demo.NetPool.Allocate.{u32_mod}

abbrev size32 : IpNet → ℕ
size32 n = size n.ones % u32_mod

-- network + size - off
abbrev from_top : IpNet → ℕ → ℕ
from_top n off = (n.ip + size32 n + u32_mod - off) % u32_mod

unfoldable pub vip_offset : ℕ → ℕ
vip_offset size = if ltb size (6 + 3) then 2 else 6

unfoldable pub lb_offset : ℕ → ℕ
lb_offset size = if ltb size (7 + 3) then 3 else 7

unfoldable pub vip_address : IpNet → ℕ
unfolding vip_offset
vip_address n = from_top n (vip_offset (size32 n))

unfoldable pub lb_address : IpNet → ℕ
unfolding lb_offset
lb_address n = from_top n (lb_offset (size32 n))

unfoldable pub gateway_address : IpNet → ℕ
gateway_address n = (n.ip + 1) % u32_mod

abbrev shown : (IpNet → ℕ) → Option IpNet → Option Text
shown f none = none
shown f (some n) = some (show_ip (f n))

unfoldable pub vip : Text → Option Text
unfolding parse_cidr vip_address show_ip
vip cidr = shown vip_address (parse_cidr cidr)

unfoldable pub load_balancer_ip : Text → Option Text
unfolding parse_cidr lb_address show_ip
load_balancer_ip cidr = shown lb_address (parse_cidr cidr)

unfoldable pub gateway : Text → Option Text
unfolding parse_cidr gateway_address show_ip
gateway cidr = shown gateway_address (parse_cidr cidr)
