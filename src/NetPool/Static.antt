-- ===== src/NetPool/Static.antt =====
-- internal/netpool/static.go: addresses from an operator's range (ParseRange, ContainsIP,
-- AllocateStatic).
pub mod Collect
pub mod Range
use kaa_s_demo.Prelude.{
  ℕ, zero, suc, ◌+◌, ◌-◌, ◌*◌, ◌%◌, ◌^◌, ◌<◌, ◌≤◌, ◌≡◌, Bool, true, false, not, ◌&&◌, ◌||◌, Option,
  none, some, List, [], ◌∷◌, ◌++◌, Text, codes, text_eq, leb, ltb, ◌==◌, if◌then◌else◌, length,
}
use kaa_s_demo.Prelude.Dict.{Dict, get}
use kaa_s_demo.Go.Strings.{trim_space, cut}
use kaa_s_demo.NetPool.Ip.{IpNet, size, contains, parse_cidr, parse_ip, show_ip}
use kaa_s_demo.NetPool.Allocate.{u32_mod}

pub data RangeError : Type 0 where
  not_a_range not_addresses inverted bad_network bad_address : RangeError
  start_unusable end_unusable : RangeError
  range_exhausted : ℕ → ℕ → RangeError
  out_of_fuel : RangeError

pub data Result {ℓ} (A : Type ℓ) : Type ℓ where
  ok : A → Result A
  err : RangeError → Result A

infixl 5 ◌>>=◌
abbrev pub ◌>>=◌ {ℓ κ} : {A : Type ℓ} {B : Type κ} → Result A → (A → Result B) → Result B
ok a >>= f = f a
err e >>= f = err e

unfoldable pub parse_range : Text → Result (ℕ × ℕ)
parse_range spec = elim (cut b'-' (trim_space spec)) [
  | none ↦ err not_a_range
  | some (a, b) ↦ elim (parse_ip (trim_space a)) [
    | none ↦ err not_addresses
    | some from ↦ elim (parse_ip (trim_space b)) [
      | none ↦ err not_addresses
      | some to ↦ if ltb to from then err inverted else ok (from, to)
    ]
  ]
]

-- the address is in the network, and neither its first nor its last
unfoldable pub is_usable : IpNet → ℕ → Bool
unfolding contains
is_usable n v =
    contains n v
    && not (v == n.ip)
    && not (v == (n.ip + size n.ones % u32_mod + u32_mod - 1) % u32_mod)

unfoldable pub contains_ip : Text → Text → Result Bool
contains_ip cidr ip = elim (parse_cidr cidr) [
  | none ↦ err bad_network
  | some n ↦ elim (parse_ip (trim_space ip)) [
    | none ↦ err bad_address
    | some v ↦ ok (is_usable n v)
  ]
]

-- used[ip] || ip == gateway; a key that the map lacks reads false
abbrev reads_true : Option Bool → Bool
reads_true none = false
reads_true (some b) = b

unfoldable pub is_taken : Dict Bool → Text → Text → Bool
unfolding get text_eq
is_taken used gateway ip = reads_true (get used ip) || text_eq ip gateway

-- the loop of AllocateStatic, from the address `v`, with what it has collected
unfoldable pub collect : Dict Bool → Text → ℕ → ℕ → ℕ → ℕ → List Text → Option (List Text)
collect used gateway to n zero v out = none
collect used gateway to n (suc fuel) v out =
    let rest =
      collect used gateway to n fuel ((v + 1) % u32_mod)
        (if is_taken used gateway (show_ip v) then out else out ++ show_ip v ∷ []) in
    if leb v to && ltb (length out) n then rest else some out

-- `if ok, err := ContainsIP(…); err != nil || !ok`
abbrev is_host : Result Bool → Bool
is_host (ok b) = b
is_host (err e) = false

unfoldable pub enough : ℕ → Option (List Text) → Result (List Text)
enough n none = err out_of_fuel
enough n (some out) = if ltb (length out) n then err (range_exhausted n (length out)) else ok out

unfoldable pub allocate_static : Text → Text → Text → Dict Bool → ℕ → Result (List Text)
allocate_static range_spec cidr gateway used n = do
  (from, to) ← parse_range range_spec
  if not (is_host (contains_ip cidr (show_ip from)))
      then err start_unusable
      else if not (is_host (contains_ip cidr (show_ip to)))
      then err end_unusable
      else enough n (collect used gateway to n (to - from + 2) from [])
