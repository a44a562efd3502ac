-- ===== src/NetPool/Ip/Bounds.antt =====
-- IPv4 addresses: the values that texts can have.
use mathlib.Core.Path.{subst}
use kaa_s_demo.Prelude.{
  ◌==◌, Bool-cases, ◌∙◌, sym, ◌+◌, arith, Option-cases, none, ◌*◌, ◌<◌, some, ◌≡◌, ℕ, List, Option,
  Text, [], ◌∷◌, ◌++◌, inl, inr,
}
use kaa_s_demo.NetPool.Ip.{octets, octet_digit, parse_ip, address}

-- an octet that is being read fits in a byte
InByte : Option ℕ → Type 0
InByte none = Unit
InByte (some v) = v < 256

AllBytes : List ℕ → Type 0
AllBytes [] = Unit
AllBytes (a ∷ as') = (a < 256) × AllBytes as'

AllBytes-append : (xs : List ℕ) (v : ℕ) → AllBytes xs → v < 256 → AllBytes (xs ++ v ∷ [])
unfolding AllBytes
AllBytes-append [] v h hv = (hv, tt)
AllBytes-append (x ∷ xs) v (hx, h) hv = (hx, AllBytes-append xs v h hv)

octet_digit-InByte : (cur cur' : Option ℕ) (c : ℕ) → octet_digit cur c ≡ some cur' → InByte cur'
unfolding octet_digit InByte
octet_digit-InByte none none c h = tt
octet_digit-InByte none (some v) c h = ground arith
octet_digit-InByte (some w) none c h = tt
octet_digit-InByte (some w) (some v) c h = ground arith

octets-AllBytes :
    (done : List ℕ) (cur : Option ℕ) (s : Text) (os : List ℕ)
    → octets done cur s ≡ some os
    → AllBytes done
    → InByte cur
    → AllBytes os
unfolding octets InByte
octets-AllBytes done none [] os h hd hc = cc
octets-AllBytes done (some v) [] os h hd hc =
    let e : done ++ v ∷ [] ≡ os = cc in subst AllBytes e (AllBytes-append done v hd hc)
octets-AllBytes done none (c ∷ cs) os h hd hc = elim (Bool-cases (c == b'.')) [
  | inl dot ↦ let no : none ≡ some os = sym (simp (octets, dot)) ∙ h in cc
  | inr other ↦ elim (Option-cases (octet_digit none c)) [
    | inl e ↦ let no : none ≡ some os = sym (simp (octets, other, e)) ∙ h in cc
    | inr (cur, e) ↦
        octets-AllBytes done cur cs os (sym (simp (octets, other, e)) ∙ h) hd
          (octet_digit-InByte none cur c e)
  ]
]
octets-AllBytes done (some v) (c ∷ cs) os h hd hc = elim (Bool-cases (c == b'.')) [
  | inl dot ↦
      octets-AllBytes (done ++ v ∷ []) none cs os (sym (simp (octets, dot)) ∙ h)
        (AllBytes-append done v hd hc) tt
  | inr other ↦ elim (Option-cases (octet_digit (some v) c)) [
    | inl e ↦ let no : none ≡ some os = sym (simp (octets, other, e)) ∙ h in cc
    | inr (cur, e) ↦
        octets-AllBytes done cur cs os (sym (simp (octets, other, e)) ∙ h) hd
          (octet_digit-InByte (some v) cur c e)
  ]
]

address_bound : (os : List ℕ) (x : ℕ) → address os ≡ some x → AllBytes os → x < 4294967296
unfolding AllBytes
address_bound (a ∷ b ∷ c ∷ d ∷ []) x h (ha, (hb, (hc, (hd, _)))) =
    let e : a * 16777216 + b * 65536 + c * 256 + d ≡ x = cc in omega arith
address_bound [] x h hb = cc
address_bound (a ∷ []) x h hb = cc
address_bound (a ∷ b ∷ []) x h hb = cc
address_bound (a ∷ b ∷ c ∷ []) x h hb = cc
address_bound (a ∷ b ∷ c ∷ d ∷ e ∷ es) x h hb = cc

-- A parsed address fits in 32 bits.
pub parse_ip_bound : (s : Text) (x : ℕ) → parse_ip s ≡ some x → x < 4294967296
unfolding parse_ip AllBytes InByte
parse_ip_bound s x h = elim (Option-cases (octets [] none s)) [
  | inl e ↦ let no : none ≡ some x = sym (simp (parse_ip, e)) ∙ h in cc
  | inr (os, e) ↦
      address_bound os x (sym (simp (parse_ip, e)) ∙ h) (octets-AllBytes [] none s os e tt tt)
]
