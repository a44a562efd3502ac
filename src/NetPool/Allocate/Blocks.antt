-- ===== src/NetPool/Allocate/Blocks.antt =====
-- internal/netpool/netpool.go: what the loop of autoAllocate over a supernet's blocks decides.
use native.Mathlib.Nat.{mul-le-mul_right}
use mathlib.Core.Path.{subst}
use kaa_s_demo.Prelude.{
  sym, ap, ◌∙◌, refl, ◌-◌, lt→ltb, leb, ◌^◌, zero, inl, inr, ==_iff, ltb→lt, ltb, ◌==◌, Bool-cases,
  arith, ◌%◌, suc, false, ◌||◌, ◌*◌, true, Bool, ◌<◌, ◌≤◌, ◌+◌, ◌≡◌, List, ℕ,
}
use kaa_s_demo.Prelude.Pow.{pow2_add, pow2_pos}
use kaa_s_demo.NetPool.Ip.{IpNet, size}
use kaa_s_demo.NetPool.Allocate.{
  Search, found, exhausted, out_of_fuel, overlaps, search_blocks, search_supernet, u32_mod,
  block_fuel,
}

-- the block number `k` of the supernet
abbrev pub block : ℕ → ℕ → ℕ → IpNet
block start prefix k = record { ip = start + k * size prefix; ones = prefix }

-- a block that the search passes over
abbrev pub is_occupied : List IpNet → List IpNet → IpNet → Bool
is_occupied reserved used n = overlaps n reserved || overlaps n used

-- The search among the blocks from `i` and below `m` finds the first free one, or there is none.
pub FirstFree : List IpNet → List IpNet → ℕ → ℕ → ℕ → ℕ → Search → Type 0
FirstFree reserved used start prefix i m (found n) =
    (k : ℕ) × (i ≤ k)
    × (k < m)
    × (n ≡ block start prefix k)
    × (is_occupied reserved used n ≡ false)
    × ((j : ℕ) → i ≤ j → j < k → is_occupied reserved used (block start prefix j) ≡ true)
FirstFree reserved used start prefix i m exhausted =
    (j : ℕ) → i ≤ j → j < m → is_occupied reserved used (block start prefix j) ≡ true
FirstFree reserved used start prefix i m out_of_fuel = ⊥

-- a block that is occupied can be put before those searched
after_occupied :
    (reserved used : List IpNet) (start prefix i m : ℕ) (r : Search)
    → is_occupied reserved used (block start prefix i) ≡ true
    → FirstFree reserved used start prefix (suc i) m r
    → FirstFree reserved used start prefix i m r
unfolding FirstFree
after_occupied reserved used start prefix i m (found n) h (k, i<k, k<m, e, free, before) = (
  k,
  omega arith,
  k<m,
  e,
  free,
  λ j i≤j j<k. elim (Bool-cases (j == i)) [
    | inl same ↦ rw ((==_iff j i).0 same) h
    | inr other ↦ before j (ground arith) j<k
  ],
)
after_occupied reserved used start prefix i m exhausted h none_left = λ j i≤j j<m.
    elim (Bool-cases (j == i)) [
      | inl same ↦ rw ((==_iff j i).0 same) h
      | inr other ↦ none_left j (ground arith) j<m
    ]
after_occupied reserved used start prefix i m out_of_fuel h bad = bad

-- the next block ends in the supernet
next_fits : (step i m : ℕ) → i < m → i * step + step ≤ m * step
next_fits step i m h = omega (arith, mul-le-mul_right step h)

-- the address of the next block does not wrap before the end of the supernet
next_block :
    (start step i m : ℕ)
    → start + m * step < u32_mod
    → i < m
    → (start + i * step + step % u32_mod) % u32_mod ≡ start + suc i * step
next_block start step i m h lt = omega (arith, next_fits step i m lt)

module _ (reserved used : List IpNet) (prefix start limit fuel addr : ℕ) where
  abbrev here : IpNet
  here = record { ip = addr; ones = prefix }

  search_stops :
      ltb addr limit ≡ false
      → search_blocks reserved used prefix start limit (suc fuel) addr ≡ exhausted
  unfolding search_blocks
  search_stops out = simp (out)

  search_finds :
      ltb addr limit ≡ true
      → leb start addr ≡ true
      → is_occupied reserved used here ≡ false
      → search_blocks reserved used prefix start limit (suc fuel) addr ≡ found here
  unfolding search_blocks
  search_finds below above free = simp (below, above, free)

  search_goes_on :
      ltb addr limit ≡ true
      → leb start addr ≡ true
      → is_occupied reserved used here ≡ true
      → search_blocks reserved used prefix start limit (suc fuel) addr
        ≡ search_blocks reserved used prefix start limit fuel
            ((addr + size prefix % u32_mod) % u32_mod)
  unfolding search_blocks
  search_goes_on below above taken = simp (below, above, taken)

pub search_blocks-FirstFree :
    (reserved used : List IpNet) (prefix start m fuel i : ℕ)
    → start + m * size prefix < u32_mod
    → i ≤ m
    → m < fuel + i
    → FirstFree reserved used start prefix i m (
        search_blocks reserved used prefix start
          (start + m * size prefix)
          fuel
          (start + i * size prefix))
unfolding FirstFree
search_blocks-FirstFree reserved used prefix start m zero i h le enough = absurd (omega arith)
search_blocks-FirstFree reserved used prefix start m (suc fuel) i h le enough =
    elim (Bool-cases (ltb i m))
      as (λ _. FirstFree reserved used start prefix i m (
        search_blocks reserved used prefix start (start + m * size prefix) (suc fuel)
          (start + i * size prefix))) [
            | inl lt ↦ elim (Bool-cases (is_occupied reserved used (block start prefix i))) [
              | inl taken ↦
                  rw
                    (search_goes_on reserved used prefix start (start + m * size prefix) fuel
                      (start + i * size prefix) (below lt) above taken)
                    (rw (next_block start (size prefix) i m h (ltb→lt i m lt)) (
                      after_occupied reserved used start prefix i m
                        (search_blocks reserved used prefix start (start + m * size prefix) fuel
                          (start + suc i * size prefix))
                        taken
                        (search_blocks-FirstFree reserved used prefix start m fuel (suc i) h
                          (ground arith) (omega arith))))
              | inr free ↦
                  rw
                    (search_finds reserved used prefix start (start + m * size prefix) fuel
                      (start + i * size prefix) (below lt) above free)
                    (i, omega arith, ltb→lt i m lt, refl, free, λ j i≤j j<i. absurd (omega arith))
            ]
            | inr ge ↦
                rw
                  (search_stops reserved used prefix start (start + m * size prefix) fuel
                    (start + i * size prefix) (beyond ge))
                  (λ j i≤j j<m. absurd (ground arith))
          ]
  where
    beyond : ltb i m ≡ false → ltb (start + i * size prefix) (start + m * size prefix) ≡ false
    beyond ge = let e : i ≡ m = ground arith in rw e (ground arith)

    above : leb start (start + i * size prefix) ≡ true
    above = ground arith

    below : ltb i m ≡ true → ltb (start + i * size prefix) (start + m * size prefix) ≡ true
    below lt =
        lt→ltb (start + i * size prefix) (start + m * size prefix)
          (omega (arith, next_fits (size prefix) i m (ltb→lt i m lt), pow2_pos (32 - prefix)))

search_supernet_lem :
    (reserved used : List IpNet) (prefix : ℕ) (super : IpNet)
    → search_supernet reserved used prefix super
      ≡ search_blocks reserved used prefix super.ip
          ((super.ip + size super.ones % u32_mod) % u32_mod)
          (block_fuel prefix super.ones)
          super.ip
unfolding search_supernet
search_supernet_lem reserved used prefix super = refl

-- The search of a supernet that does not end at the last address of all ends, and it finds the
-- first block that meets no reserved and no used network, or there is no such block.
pub search_supernet-FirstFree :
    (reserved used : List IpNet) (prefix : ℕ) (super : IpNet)
    → super.ones ≤ prefix
    → prefix ≤ 32
    → super.ip + size super.ones < u32_mod
    → FirstFree reserved used super.ip prefix 0
        (2 ^ (prefix - super.ones))
        (search_supernet reserved used prefix super)
search_supernet-FirstFree reserved used prefix super h h' fits =
    rw (search_supernet_lem reserved used prefix super, limit)
      (subst
        (λ (a : ℕ). FirstFree reserved used super.ip prefix 0 blocks (
          search_blocks reserved used prefix super.ip (super.ip + blocks * size prefix) (suc blocks)
            a))
        (sym first)
        (search_blocks-FirstFree reserved used prefix super.ip blocks (suc blocks) 0 inside
          (omega arith) (omega arith)))
  where
    blocks : ℕ
    blocks = 2 ^ (prefix - super.ones)

    whole : size super.ones ≡ blocks * size prefix
    whole =
        let e : 32 - super.ones ≡ prefix - super.ones + (32 - prefix) = omega arith in
        ap (λ (k : ℕ). 2 ^ k) e ∙ pow2_add (prefix - super.ones) (32 - prefix)

    inside : super.ip + blocks * size prefix < u32_mod
    inside = omega (arith, whole)

    limit : (super.ip + size super.ones % u32_mod) % u32_mod ≡ super.ip + blocks * size prefix
    limit = omega (arith, whole)

    first : super.ip ≡ super.ip + 0 * size prefix
    first = omega arith

-- A supernet that ends at the last address of all is never searched: its end wraps to 0.
pub search_supernet-last :
    (reserved used : List IpNet) (prefix : ℕ) (super : IpNet)
    → super.ip + size super.ones ≡ u32_mod
    → search_supernet reserved used prefix super ≡ exhausted
search_supernet-last reserved used prefix super h =
    search_supernet_lem reserved used prefix super
    ∙ search_stops reserved used prefix super.ip ((super.ip + size super.ones % u32_mod) % u32_mod)
        (2 ^ (prefix - super.ones)) super.ip (ground arith)
