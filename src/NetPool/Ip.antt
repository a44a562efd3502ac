-- ===== src/NetPool/Ip.antt =====
-- IPv4 addresses and networks: what internal/netpool uses of Go's `net`. An address is its 32-bit
-- value. Only dotted IPv4 is modelled: for any other text parsing gives `none`. The code refuses an
-- IPv6 network too (`To4() == nil`), but for the reserved and the used networks, where it keeps one,
-- which then contains no IPv4 address and so overlaps nothing.
pub mod Overlap
pub mod RoundTrip
pub mod Bounds
pub mod Aligned
use kaa_s_demo.Prelude.{
  not, ℕ, zero, suc, ◌+◌, ◌-◌, ◌*◌, ◌/◌, ◌%◌, ◌^◌, ◌<◌, ◌≤◌, ◌≡◌, Bool, true, false, ◌&&◌, ◌||◌,
  Option, none, some, List, [], ◌∷◌, ◌++◌, Text, leb, ltb, ◌==◌, if◌then◌else◌,
}
use kaa_s_demo.Go.Decimal.{decimal}
use kaa_s_demo.Go.Strings.{cut, unsigned, is_digit}

-- `*net.IPNet`: the network address, whose host bits are 0, and the prefix length
pub record IpNet : Type 0 where
  pub ip : ℕ
  pub ones : ℕ

-- the number of addresses, 2 ^ (bits - ones)
abbrev pub size : ℕ → ℕ
size ones = 2 ^ (32 - ones)

-- An octet that is being read: its value, once it has a digit. A digit may not follow a leading 0.
unfoldable pub octet_digit : Option ℕ → ℕ → Option (Option ℕ)
octet_digit none c = if is_digit c then some (some (c - 48)) else none
octet_digit (some v) c =
    if is_digit c && not (v == 0) && leb (v * 10 + (c - 48)) 255
    then some (some (v * 10 + (c - 48)))
    else none

-- the octets of a dotted address, of which `done` are read
unfoldable pub octets : List ℕ → Option ℕ → Text → Option (List ℕ)
unfolding octet_digit
octets done none [] = none
octets done (some v) [] = some (done ++ v ∷ [])
octets done cur (c ∷ cs) =
    if c == b'.'
    then elim cur [ none ↦ none | some v ↦ octets (done ++ v ∷ []) none cs ]
    else elim (octet_digit cur c) [ none ↦ none | some cur' ↦ octets done cur' cs ]

abbrev address : List ℕ → Option ℕ
address (a ∷ b ∷ c ∷ d ∷ []) = some (a * 16777216 + b * 65536 + c * 256 + d)
address _ = none

-- net.ParseIP, and To4 of what it gives
unfoldable pub parse_ip : Text → Option ℕ
parse_ip s = elim (octets [] none s) [ none ↦ none | some os ↦ address os ]

-- (net.IP).String of an IPv4 address
unfoldable pub show_ip : ℕ → Text
show_ip a =
    decimal (a / 16777216 % 256)
    ++ b'.'
      ∷ (decimal (a / 65536 % 256) ++ b'.' ∷ (decimal (a / 256 % 256) ++ b'.' ∷ decimal (a % 256)))

-- the network that an address lies in
unfoldable pub masked : ℕ → ℕ → IpNet
masked a ones = record { ip = a - a % size ones; ones = ones }

-- net.ParseCIDR
unfoldable pub parse_cidr : Text → Option IpNet
parse_cidr s = elim (cut b'/' s) [
  | none ↦ none
  | some (addr, mask) ↦ elim (parse_ip addr) [
    | none ↦ none
    | some a ↦ elim (unsigned mask) [
      | none ↦ none
      | some ones ↦ if leb ones 32 then some (masked a ones) else none
    ]
  ]
]

-- (*net.IPNet).String
unfoldable pub show_net : IpNet → Text
show_net n = show_ip n.ip ++ b'/' ∷ decimal n.ones

-- (*net.IPNet).Contains
unfoldable pub contains : IpNet → ℕ → Bool
contains n a = a / size n.ones == n.ip / size n.ones
