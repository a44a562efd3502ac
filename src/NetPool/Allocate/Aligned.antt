-- ===== src/NetPool/Allocate/Aligned.antt =====
-- internal/netpool/netpool.go: the blocks that the search tries are networks, without host bits.
use mathlib.Core.Path.{subst}
use native.Mathlib.Nat.{mod-mod_of_dvd, dvd_of_mod-eq-zero, mul-mod_right, mod_self, add-mod}
use kaa_s_demo.Prelude.{
  leb, ◌&&◌, ltb, ◌∙◌, sym, arith, Bool-cases, ◌+◌, ◌-◌, ◌<◌, ◌^◌, ◌≡◌, ◌≤◌, ◌%◌, List, ℕ, inl, inr,
  zero, suc,
}
use kaa_s_demo.Prelude.Pow.{pow2_split}
use kaa_s_demo.NetPool.Ip.{IpNet, size}
use kaa_s_demo.NetPool.Ip.Aligned.{IsNet}
use kaa_s_demo.NetPool.Allocate.{
  found, exhausted, search_blocks, search_supernet, u32_mod, block_fuel,
}
use kaa_s_demo.NetPool.Allocate.Blocks.{is_occupied}

-- a block's size divides that of a larger one, and that of the whole address space
coarser_mod : (a j k : ℕ) → j ≤ k → a % 2 ^ k % 2 ^ j ≡ a % 2 ^ j
coarser_mod a j k h =
    mod-mod_of_dvd (2 ^ j) a
      (dvd_of_mod-eq-zero (2 ^ j) (rw (pow2_split j k h) (mul-mod_right (2 ^ j) (2 ^ (k - j)))))

next_aligned :
    (prefix addr : ℕ)
    → addr % size prefix ≡ 0
    → (addr + size prefix % u32_mod) % u32_mod % size prefix ≡ 0
next_aligned prefix addr h =
    coarser_mod (addr + size prefix % u32_mod) (32 - prefix) 32 (omega arith)
    ∙ add-mod addr (size prefix % u32_mod) (size prefix)
    ∙ rw (h, coarser_mod (size prefix) (32 - prefix) 32 (omega arith), mod_self (size prefix))
        (zero_mod (size prefix))
  where
    zero_mod : (s : ℕ) → (0 + 0) % s ≡ 0
    zero_mod s = omega arith

found_aligned :
    (reserved used : List IpNet) (prefix start limit fuel addr : ℕ) (n : IpNet)
    → addr % size prefix ≡ 0
    → addr < u32_mod
    → prefix ≤ 32
    → search_blocks reserved used prefix start limit fuel addr ≡ found n
    → IsNet n
unfolding search_blocks
found_aligned reserved used prefix start limit zero addr n h lt short f = cc
found_aligned reserved used prefix start limit (suc fuel) addr n h lt short f =
    elim (Bool-cases (ltb addr limit && leb start addr)) [
      | inl inside ↦
          elim (Bool-cases (is_occupied reserved used (record { ip = addr; ones = prefix }))) [
            | inl taken ↦
                found_aligned reserved used prefix start limit fuel
                  ((addr + size prefix % u32_mod) % u32_mod) n (next_aligned prefix addr h)
                  (omega arith) short (sym (simp (inside, taken)) ∙ f)
            | inr free ↦
                let same : found (record { ip = addr; ones = prefix }) ≡ found n =
                  sym (simp (inside, free)) ∙ f in
                let e : record { ip = addr; ones = prefix } ≡ n = cc in
                subst IsNet e (record { aligned = h; short = short; fits = lt })
          ]
      | inr outside ↦ let stopped : exhausted ≡ found n = sym (simp (outside)) ∙ f in cc
    ]

-- What the search of a network's blocks finds is a network.
pub search_supernet-IsNet :
    (reserved used : List IpNet) (prefix : ℕ) (super n : IpNet)
    → IsNet super
    → super.ones ≤ prefix
    → prefix ≤ 32
    → search_supernet reserved used prefix super ≡ found n
    → IsNet n
unfolding search_supernet
search_supernet-IsNet reserved used prefix super n net h short f =
    found_aligned reserved used prefix super.ip ((super.ip + size super.ones % u32_mod) % u32_mod)
      (block_fuel prefix super.ones) super.ip n
      (sym (coarser_mod super.ip (32 - prefix) (32 - super.ones) (omega arith))
        ∙ rw net.aligned (omega arith))
      net.fits short f
