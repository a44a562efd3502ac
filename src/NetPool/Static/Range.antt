-- ===== src/NetPool/Static/Range.antt =====
-- internal/netpool/static.go: what AllocateStatic gives.
use kaa_s_demo.NetPool.Ip.Overlap.{contains_iff}
use kaa_s_demo.NetPool.Ip.Aligned.{ends_at_top, parse_cidr-IsNet, IsNet}
use kaa_s_demo.Prelude.Dict.{Dict}
use kaa_s_demo.Go.Strings.{trim_space, cut}
use kaa_s_demo.Prelude.{
  false, ltb→lt, length-take, List, ◌%◌, ap, ◌==◌, ◌+◌, true, ◌-◌, not, if◌then◌else◌, Bool, arith,
  ltb, Bool-cases, ◌∙◌, sym, Option-cases, some, ◌<◌, ◌≤◌, ◌≡◌, Text, ℕ, [], inl, inr, suc, take,
  length,
}
use kaa_s_demo.NetPool.Static.{
  inverted, not_addresses, not_a_range, collect, is_usable, parse_range, allocate_static,
  contains_ip, ok, err, enough, range_exhausted, start_unusable, end_unusable,
}
use kaa_s_demo.NetPool.Static.Collect.{free_hosts, collect-free_hosts}
use kaa_s_demo.NetPool.Allocate.{u32_mod}
use kaa_s_demo.NetPool.Ip.{size, contains, parse_ip, show_ip, IpNet, parse_cidr}
use kaa_s_demo.NetPool.Ip.RoundTrip.{parse_ip-show_ip, trim_space-show_ip}
use kaa_s_demo.NetPool.Ip.Bounds.{parse_ip_bound}

-- the ends of a range that is parsed
parse_range-ok :
    (spec : Text) (from to : ℕ) → parse_range spec ≡ ok (from, to) → (from ≤ to) × (to < u32_mod)
unfolding parse_range
parse_range-ok spec from to h = elim (Option-cases (cut b'-' (trim_space spec))) [
  | inl e ↦ let no : err not_a_range ≡ ok (from, to) = sym (simp (parse_range, e)) ∙ h in cc
  | inr (parts, e) ↦ elim (Option-cases (parse_ip (trim_space parts.0))) [
    | inl e' ↦
        let no : err not_addresses ≡ ok (from, to) = sym (simp (parse_range, e, e')) ∙ h in cc
    | inr (a, e') ↦ elim (Option-cases (parse_ip (trim_space parts.1))) [
      | inl e'' ↦
          let no : err not_addresses ≡ ok (from, to) = sym (simp (parse_range, e, e', e'')) ∙ h in
          cc
      | inr (b, e'') ↦ elim (Bool-cases (ltb b a)) [
        | inl inv ↦
            let no : err inverted ≡ ok (from, to) = sym (simp (parse_range, e, e', e'', inv)) ∙ h in
            cc
        | inr fine ↦
            let same : ok (a, b) ≡ ok (from, to) = sym (simp (parse_range, e, e', e'', fine)) ∙ h in
            let a≡from : a ≡ from = cc in
            let b≡to : b ≡ to = cc in ground (arith, parse_ip_bound (trim_space parts.1) b e'')
      ]
    ]
  ]
]

contains_ip-show_ip :
    (cidr : Text) (net : IpNet) (x : ℕ)
    → parse_cidr cidr ≡ some net
    → x < u32_mod
    → contains_ip cidr (show_ip x) ≡ ok (is_usable net x)
unfolding contains_ip
contains_ip-show_ip cidr net x h hx =
    simp (contains_ip, h, trim_space-show_ip x, parse_ip-show_ip x hx)

enough-take :
    (n : ℕ) (free : List Text)
    → enough n (some (take n free))
      ≡ (if ltb (length free) n then err (range_exhausted n (length free)) else ok (take n free))
unfolding enough
enough-take n free = elim (Bool-cases (ltb (length free) n)) [
  | inl few ↦
      let all : length (take n free) ≡ length free =
        length-take n free ∙ omega (arith, ltb→lt (length free) n few) in
      simp (all, few)
  | inr many ↦
      let full : length (take n free) ≡ n = length-take n free ∙ ground arith in
      let no_less : ltb n n ≡ false = ground arith in simp (full, no_less, many)
]

usable_not_top :
    (net : IpNet) (v : ℕ) → IsNet net → v < u32_mod → is_usable net v ≡ true → suc v < u32_mod
unfolding is_usable
usable_not_top net v wf hv h = elim (Bool-cases (v == 4294967295)) [
  | inr below ↦ ground arith
  | inl top ↦
      let v≡top : v ≡ 4294967295 = ground arith in
      let inside : contains net v ≡ true = ground arith in
      let at_top : net.ip + size net.ones ≡ 4294967296 =
        ends_at_top net v wf v≡top ((contains_iff net v).0 inside) in
      let last : (net.ip + size net.ones % u32_mod + u32_mod - 1) % u32_mod ≡ v = omega arith in
      absurd (ground arith)
]

-- For a range and a network that parse, AllocateStatic checks that both ends are usable hosts of
-- the network, and gives the first `n` addresses of the range that are neither used nor the
-- gateway, or reports how many of them there are if they are fewer; its loop ends.
pub allocate_static-free_hosts :
    (spec cidr gateway : Text) (used : Dict Bool) (n from to : ℕ) (net : IpNet)
    → parse_range spec ≡ ok (from, to)
    → parse_cidr cidr ≡ some net
    → allocate_static spec cidr gateway used n ≡ (
        if not (is_usable net from)
        then err start_unusable
        else if not (is_usable net to)
        then err end_unusable
        else if ltb (length (free_hosts used gateway from (suc to - from))) n
        then err (range_exhausted n (length (free_hosts used gateway from (suc to - from))))
        else ok (take n (free_hosts used gateway from (suc to - from))))
unfolding allocate_static
allocate_static-free_hosts spec cidr gateway used n from to net h h' =
    elim (Bool-cases (is_usable net from)) [
      | inr bad ↦ simp (allocate_static, h, starts, bad)
      | inl good ↦ elim (Bool-cases (is_usable net to)) [
        | inr bad ↦ simp (allocate_static, h, starts, ends, good, bad)
        | inl good' ↦ simp (
          allocate_static,
          h,
          starts,
          ends,
          good,
          good',
          collected good',
          enough-take n (free_hosts used gateway from (suc to - from)),
        )
      ]
    ]
  where
    ordered : (from ≤ to) × (to < u32_mod)
    ordered = parse_range-ok spec from to h

    starts : contains_ip cidr (show_ip from) ≡ ok (is_usable net from)
    starts = contains_ip-show_ip cidr net from h' (omega (arith, ordered))

    ends : contains_ip cidr (show_ip to) ≡ ok (is_usable net to)
    ends = contains_ip-show_ip cidr net to h' (omega (arith, ordered))

    collected :
        is_usable net to ≡ true
        → collect used gateway to n (to - from + 2) from []
          ≡ some (take n (free_hosts used gateway from (suc to - from)))
    collected good =
        let all : n - 0 ≡ n = omega arith in
        collect-free_hosts used gateway to n (to - from + 2) from []
          (usable_not_top net to (parse_cidr-IsNet cidr net h') ordered.1 good)
          (omega (arith, ordered)) (omega (arith, ordered)) (omega arith)
        ∙ ap (λ (k : ℕ). some (take k (free_hosts used gateway from (suc to - from)))) all
