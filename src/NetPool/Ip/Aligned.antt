-- ===== src/NetPool/Ip/Aligned.antt =====
-- IPv4 networks that are parsed: no host bits, and within 32 bits.
use mathlib.Core.Path.{subst}
use kaa_s_demo.Go.Strings.{unsigned, cut}
use native.Mathlib.Nat.{div-add-mod, mod-lt, lt_of_mul-lt-mul_left, mul-le-mul_left, mul-mod_right}
use kaa_s_demo.Prelude.{
  leb, Bool-cases, ◌∙◌, sym, suc, none, arith, ◌^◌, ◌*◌, ◌-◌, ◌+◌, Option-cases, ◌/◌, some, ◌≤◌,
  ◌<◌, ◌≡◌, Text, ℕ, ◌%◌, inl, inr,
}
use kaa_s_demo.Prelude.Pow.{pow2_split, pow2_pos}
use kaa_s_demo.NetPool.Ip.{IpNet, size, masked, parse_cidr, parse_ip}
use kaa_s_demo.NetPool.Ip.Bounds.{parse_ip_bound}

pub record IsNet (n : IpNet) : Type 0 where
  pub aligned : n.ip % size n.ones ≡ 0
  pub short : n.ones ≤ 32
  pub fits : n.ip < 4294967296

masked-IsNet : (a ones : ℕ) → a < 4294967296 → ones ≤ 32 → IsNet (masked a ones)
unfolding masked
masked-IsNet a ones h h' = record {
  aligned =
      let e : a - a % size ones ≡ size ones * (a / size ones) =
        omega (arith, div-add-mod a (size ones)) in
      rw e (mul-mod_right (size ones) (a / size ones));
  short = h';
  fits = omega arith;
}

-- A network that parses is one.
pub parse_cidr-IsNet : (s : Text) (n : IpNet) → parse_cidr s ≡ some n → IsNet n
unfolding parse_cidr
parse_cidr-IsNet s n h = elim (Option-cases (cut b'/' s)) [
  | inl e ↦ let no : none ≡ some n = sym (simp (parse_cidr, e)) ∙ h in cc
  | inr (parts, e) ↦ elim (Option-cases (parse_ip parts.0)) [
    | inl e' ↦ let no : none ≡ some n = sym (simp (parse_cidr, e, e')) ∙ h in cc
    | inr (a, e') ↦ elim (Option-cases (unsigned parts.1)) [
      | inl e'' ↦ let no : none ≡ some n = sym (simp (parse_cidr, e, e', e'')) ∙ h in cc
      | inr (ones, e'') ↦ elim (Bool-cases (leb ones 32)) [
        | inr long ↦ let no : none ≡ some n = sym (simp (parse_cidr, e, e', e'', long)) ∙ h in cc
        | inl short ↦
            let same : some (masked a ones) ≡ some n =
              sym (simp (parse_cidr, e, e', e'', short)) ∙ h in
            let m≡n : masked a ones ≡ n = cc in
            subst IsNet m≡n (masked-IsNet a ones (parse_ip_bound parts.0 a e') (ground arith))
      ]
    ]
  ]
]

-- a network with the last address of all ends there
pub ends_at_top :
    (n : IpNet) (v : ℕ)
    → IsNet n
    → v ≡ 4294967295
    → v / size n.ones ≡ n.ip / size n.ones
    → n.ip + size n.ones ≡ 4294967296
ends_at_top n v net top same = omega (arith, base, div-add-mod v s, mod-lt v positive, whole, next)
  where
    s : ℕ
    s = size n.ones

    positive : 0 < s
    positive = pow2_pos (32 - n.ones)

    p : ℕ
    p = 2 ^ (32 - (32 - n.ones))

    whole : 4294967296 ≡ s * p
    whole = pow2_split (32 - n.ones) 32 (omega arith)

    base : n.ip ≡ s * (v / s)
    base = rw same (omega (arith, div-add-mod n.ip s, net.aligned))

    below : v / s < p
    below = lt_of_mul-lt-mul_left s (omega (arith, whole, div-add-mod v s))

    next : s * suc (v / s) ≤ s * p
    next = mul-le-mul_left s below

-- A network ends within 32 bits.
pub net_end : (n : IpNet) → IsNet n → n.ip + size n.ones ≤ 4294967296
net_end n net = omega (arith, base, whole, next)
  where
    s : ℕ
    s = size n.ones

    p : ℕ
    p = 2 ^ (32 - (32 - n.ones))

    whole : 4294967296 ≡ s * p
    whole = pow2_split (32 - n.ones) 32 (omega arith)

    base : n.ip ≡ s * (n.ip / s)
    base = omega (arith, div-add-mod n.ip s, net.aligned)

    below : n.ip / s < p
    below = lt_of_mul-lt-mul_left s (omega (arith, whole, base, net.fits))

    next : s * suc (n.ip / s) ≤ s * p
    next = mul-le-mul_left s below
