-- ===== src/NetPool/Derive/Order.antt =====
-- internal/netpool/netpool.go: where the derived addresses of a node network lie.
use kaa_s_demo.NetPool.Allocate.{max_prefix, min_prefix}
use kaa_s_demo.Prelude.{arith, ◌-◌, ◌+◌, ◌<◌, ◌≤◌}
use kaa_s_demo.Prelude.Pow.{pow2_mono}
use kaa_s_demo.NetPool.Ip.{IpNet, size}
use kaa_s_demo.NetPool.Ip.Aligned.{IsNet, net_end}
use kaa_s_demo.NetPool.Derive.{vip_address, lb_address, gateway_address, vip_offset, lb_offset}

-- In a network without host bits, of an admitted size, the gateway, the load balancer and the API address are distinct
-- hosts, in this order, and none of them is the network's first address or its last.
pub derived_order :
    (n : IpNet)
    → IsNet n
    → min_prefix ≤ n.ones
    → n.ones ≤ max_prefix
    → (n.ip < gateway_address n)
      × (gateway_address n < lb_address n)
      × (lb_address n < vip_address n)
      × (vip_address n < n.ip + size n.ones - 1)
unfolding vip_address lb_address gateway_address vip_offset lb_offset
derived_order n net low high = ground (arith, net_end n net, least, most)
  where
    least : 16 ≤ size n.ones
    least = pow2_mono 4 (32 - n.ones) (omega arith)

    most : size n.ones ≤ 65536
    most = pow2_mono (32 - n.ones) 16 (omega arith)
