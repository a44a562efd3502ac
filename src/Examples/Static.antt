-- ===== src/Examples/Static.antt =====
-- Static addresses: the theorem at a concrete input.
use kaa_s_demo.Go.Decimal.{decimal}
use kaa_s_demo.Go.Strings.{digits_from, trim_space, cut, unsigned, is_space}
use kaa_s_demo.Prelude.{
  ◌-◌, suc, ltb, not, true, some, Text, ◌≡◌, Bool, codes, refl, length, take, text_eq, [], ◌∷◌,
  if◌then◌else◌,
}
use kaa_s_demo.Prelude.Dict.{get, empty, Dict, put}
use kaa_s_demo.NetPool.Ip.{
  show_ip, contains, IpNet, parse_cidr, parse_ip, octets, masked, octet_digit,
}
use kaa_s_demo.NetPool.Static.{
  enough, is_taken, collect, contains_ip, allocate_static, parse_range, is_usable, ok, err,
  start_unusable, end_unusable, range_exhausted,
}
use kaa_s_demo.NetPool.Static.Collect.{free_hosts}
use kaa_s_demo.NetPool.Static.Range.{allocate_static-free_hosts}

abbrev first_net : IpNet
first_net = record { ip = 180879360; ones = 24 }

abbrev range : Text
range = codes "10.200.0.10 - 10.200.0.12"

range_parses : parse_range range ≡ ok (180879370, 180879372)
unfolding parse_range trim_space cut parse_ip octets octet_digit is_space
range_parses = refl

net_parses : parse_cidr (codes "10.200.0.0/24") ≡ some first_net
unfolding parse_cidr cut parse_ip octets octet_digit unsigned digits_from masked
net_parses = refl

abbrev gateway_ip : Text
gateway_ip = codes "10.200.0.1"

-- 10.200.0.11 is taken
abbrev used : Dict Bool
used = put empty (codes "10.200.0.11") true

two_free :
    allocate_static range (codes "10.200.0.0/24") gateway_ip used 2
    ≡ ok (codes "10.200.0.10" ∷ codes "10.200.0.12" ∷ [])
unfolding allocate_static parse_range trim_space cut parse_ip octets octet_digit is_space parse_cidr
    unsigned digits_from masked contains_ip is_usable contains collect is_taken get put empty
    text_eq show_ip decimal enough
two_free = refl

allocate_static-free_hosts_example :
    allocate_static range (codes "10.200.0.0/24") gateway_ip used 2 ≡ (
      if not (is_usable first_net 180879370)
      then err start_unusable
      else if not (is_usable first_net 180879372)
      then err end_unusable
      else if ltb (length (free_hosts used gateway_ip 180879370 (suc 180879372 - 180879370))) 2
      then err (
          range_exhausted 2
            (length (free_hosts used gateway_ip 180879370 (suc 180879372 - 180879370))))
      else ok (take 2 (free_hosts used gateway_ip 180879370 (suc 180879372 - 180879370))))
allocate_static-free_hosts_example =
    allocate_static-free_hosts range (codes "10.200.0.0/24") gateway_ip used 2 180879370 180879372
      first_net range_parses net_parses
