-- ===== src/NetPool/Ip/Overlap.antt =====
-- What the overlap test of two networks decides.
use native.Mathlib.Nat.{div-div-eq-div-mul}
use kaa_s_demo.Prelude.{
  ◌^◌, ℕ, ◌-◌, ◌*◌, ◌/◌, ◌≤◌, ◌≡◌, ◌∙◌, ◌↔◌, inl, inr, sym, ap, refl, true, ◌||◌, ==_iff, arith,
  Bool-cases, leb,
}
use kaa_s_demo.Prelude.Pow.{pow2_split}
use kaa_s_demo.NetPool.Ip.{IpNet, size, contains}
use kaa_s_demo.NetPool.Allocate.{meets}

-- the block of a larger size that an address lies in follows from its block of a smaller size
coarser : (x y s k : ℕ) → x / s ≡ y / s → x / (s * k) ≡ y / (s * k)
coarser x y s k h =
    sym (div-div-eq-div-mul x s k) ∙ ap (λ (q : ℕ). q / k) h ∙ div-div-eq-div-mul y s k

pub contains_iff :
    (n : IpNet) (x : ℕ) → (contains n x ≡ true) ↔ (x / size n.ones ≡ n.ip / size n.ones)
unfolding contains
contains_iff n x = ==_iff (x / size n.ones) (n.ip / size n.ones)

-- a network that shares an address with a larger one starts inside it
starts_inside :
    (n o : IpNet) (x : ℕ)
    → n.ones ≤ o.ones
    → contains n x ≡ true
    → contains o x ≡ true
    → contains n o.ip ≡ true
starts_inside n o x h hn ho = (contains_iff n o.ip).1 (
    ap (λ (s : ℕ). o.ip / s) factor
    ∙ coarser o.ip x (size o.ones) k (sym ((contains_iff o x).0 ho))
    ∙ ap (λ (s : ℕ). x / s) (sym factor)
    ∙ (contains_iff n x).0 hn)
  where
    k : ℕ
    k = 2 ^ (32 - n.ones - (32 - o.ones))

    factor : size n.ones ≡ size o.ones * k
    factor = pow2_split (32 - o.ones) (32 - n.ones) (omega arith)

-- The overlap test of two networks passes exactly if some address lies in both.
pub meets_iff :
    (n o : IpNet) → (meets n o ≡ true) ↔ ((x : ℕ) × (contains n x ≡ true) × (contains o x ≡ true))
unfolding meets
meets_iff n o = (to, from)
  where
    self : (m : IpNet) → contains m m.ip ≡ true
    self m = (contains_iff m m.ip).1 refl

    to :
        (contains n o.ip || contains o n.ip) ≡ true
        → (x : ℕ) × (contains n x ≡ true) × (contains o x ≡ true)
    to h = elim (Bool-cases (contains n o.ip)) [
      | inl yes' ↦ (o.ip, yes', self o)
      | inr no' ↦ (n.ip, self n, rw no' at h)
    ]

    from :
        (x : ℕ) × (contains n x ≡ true) × (contains o x ≡ true)
        → (contains n o.ip || contains o n.ip) ≡ true
    from (x, hn, ho) = elim (Bool-cases (leb n.ones o.ones)) [
      | inl small ↦ rw (starts_inside n o x (ground arith) hn ho) refl
      | inr large ↦ ground (arith, starts_inside o n x (ground arith) ho hn)
    ]
