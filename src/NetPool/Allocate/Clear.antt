-- ===== src/NetPool/Allocate/Clear.antt =====
-- internal/netpool/netpool.go: a network that Allocate gives shares no address with another.
use kaa_s_demo.NetPool.Allocate.Aligned.{search_supernet-IsNet}
use kaa_s_demo.NetPool.Ip.Aligned.{parse_cidr-IsNet, IsNet}
use kaa_s_demo.Prelude.Int.{ℤ, pos_part, pos, ltb_ℤ}
use kaa_s_demo.Go.Strings.{trim_space}
use mathlib.Core.Path.{subst}
use kaa_s_demo.Prelude.{
  ap, ◌||◌, codes, Text, [], ◌∷◌, ◌∙◌, sym, ◌%◌, ◌+◌, leb, ◌&&◌, ltb, Bool-cases, ◌∷◌, zero, some,
  suc, Option-cases, get_elem?, arith, true, false, none, ◌≡◌, ℕ, List, inl, inr,
}
use kaa_s_demo.NetPool.Ip.{parse_cidr, IpNet, size, contains}
use kaa_s_demo.NetPool.Ip.Overlap.{meets_iff}
use kaa_s_demo.NetPool.Allocate.{
  Error, Search, block_fuel, bad_prefix, bad_supernet, default_supernet, overlaps_used,
  overlaps_reserved, prefix_out_of_range, not_ipv4_cidr, ok, err, out_of_fuel, getenv, env_int,
  max_prefix, min_prefix, auto_allocate, validate_requested, no_free_network, search_supernet, Env,
  search_supernet, auto_allocate, validate_requested, exhausted, found, u32_mod, found,
  search_blocks, overlap_name, overlaps, meets,
}
use kaa_s_demo.NetPool.Allocate.Blocks.{is_occupied}

-- No address lies in both networks.
unfoldable pub Apart : IpNet → IpNet → Type 0
Apart n o = (x : ℕ) → contains n x ≡ true → contains o x ≡ true → ⊥

disjoint_of_meets : (n o : IpNet) → meets n o ≡ false → Apart n o
unfolding Apart
disjoint_of_meets n o h x hn ho =
    let e : meets n o ≡ true = (meets_iff n o).1 (x, hn, ho) in ground arith

pub overlap_name-none :
    (n : IpNet) (os : List IpNet) (i : ℕ) (o : IpNet)
    → overlap_name n os ≡ none
    → get_elem? os i ≡ some o
    → Apart n o
unfolding overlap_name
overlap_name-none n [] i o h e = cc
overlap_name-none n (p ∷ os) zero o h e = elim (Bool-cases (meets n p)) [
  | inl yes' ↦ cc
  | inr no' ↦ disjoint_of_meets n o cc
]
overlap_name-none n (p ∷ os) (suc i) o h e = elim (Bool-cases (meets n p)) [
  | inl yes' ↦ cc
  | inr no' ↦ overlap_name-none n os i o (rw no' at h) e
]

-- a test that fails found no network
none_of_overlaps : (n : IpNet) (os : List IpNet) → overlaps n os ≡ false → overlap_name n os ≡ none
unfolding overlaps
none_of_overlaps n os h = elim (Option-cases (overlap_name n os)) [ inl e ↦ e | inr (o, e) ↦ cc ]

-- What the search finds is not occupied.
found_free :
    (reserved used : List IpNet) (prefix start limit fuel addr : ℕ) (n : IpNet)
    → search_blocks reserved used prefix start limit fuel addr ≡ found n
    → is_occupied reserved used n ≡ false
unfolding search_blocks
found_free reserved used prefix start limit zero addr n h = cc
found_free reserved used prefix start limit (suc fuel) addr n h =
    elim (Bool-cases (ltb addr limit && leb start addr)) [
      | inl inside ↦
          elim (Bool-cases (is_occupied reserved used (record { ip = addr; ones = prefix }))) [
            | inl taken ↦
                found_free reserved used prefix start limit fuel
                  ((addr + size prefix % u32_mod) % u32_mod) n (sym (simp (inside, taken)) ∙ h)
            | inr free ↦
                let found_here : found (record { ip = addr; ones = prefix }) ≡ found n =
                  sym (simp (inside, free)) ∙ h in
                cc
          ]
      | inr outside ↦ let stopped : exhausted ≡ found n = sym (simp (outside)) ∙ h in cc
    ]

-- a network that is not occupied
disjoint_of_free :
    (n : IpNet) (os : List IpNet) (i : ℕ) (o : IpNet)
    → overlaps n os ≡ false
    → get_elem? os i ≡ some o
    → Apart n o
disjoint_of_free n os i o h e = overlap_name-none n os i o (none_of_overlaps n os h) e

-- the networks that a new one may not share an address with
abbrev pub IsClear : List IpNet → List IpNet → IpNet → Type 0
IsClear reserved used n =
    ((i : ℕ) (o : IpNet) → get_elem? reserved i ≡ some o → Apart n o)
    × ((i : ℕ) (o : IpNet) → get_elem? used i ≡ some o → Apart n o)

passes_of_free :
    (reserved used : List IpNet) (n : IpNet)
    → is_occupied reserved used n ≡ false
    → IsClear reserved used n
passes_of_free reserved used n h = (
  λ i o e. disjoint_of_free n reserved i o (ground arith) e,
  λ i o e. disjoint_of_free n used i o (ground arith) e,
)

-- a search whose result is taken has found it
ok_of_search :
    (r : Search) (e : Error) (n : IpNet)
    → (elim r [ found m ↦ ok m | exhausted ↦ err e | out_of_fuel ↦ err e ]) ≡ ok n
    → r ≡ found n
ok_of_search (found m) e n h = let m≡n : m ≡ n = cc in ap found m≡n
ok_of_search exhausted e n h = cc
ok_of_search out_of_fuel e n h = cc

search_supernet_free :
    (reserved used : List IpNet) (prefix : ℕ) (super n : IpNet)
    → search_supernet reserved used prefix super ≡ found n
    → is_occupied reserved used n ≡ false
unfolding search_supernet
search_supernet_free reserved used prefix super n h =
    found_free reserved used prefix super.ip ((super.ip + size super.ones % u32_mod) % u32_mod)
      (block_fuel prefix super.ones) super.ip n h

-- KAAS_NET_PREFIX
abbrev wanted_prefix : Env → ℤ
wanted_prefix env = env_int env (codes "KAAS_NET_PREFIX") (pos 24)

-- A network that is clear of the others and has no host bits.
abbrev pub IsAdmitted : List IpNet → List IpNet → IpNet → Type 0
IsAdmitted reserved used n = IsClear reserved used n × IsNet n

pub auto_allocate-IsAdmitted :
    (env : Env) (reserved used : List IpNet) (n : IpNet)
    → auto_allocate env reserved used ≡ ok n
    → IsAdmitted reserved used n
unfolding auto_allocate
auto_allocate-IsAdmitted env reserved used n h =
    elim (Option-cases (parse_cidr (getenv env (codes "KAAS_NET_SUPERNET") default_supernet))) [
      | inl e ↦
          let bad : err (bad_supernet (getenv env (codes "KAAS_NET_SUPERNET") default_supernet))
              ≡ ok n =
            sym (simp (auto_allocate, e)) ∙ h in
          cc
      | inr (super, e) ↦
          elim (Bool-cases (
            ltb_ℤ (wanted_prefix env) (pos super.ones)
            || ltb_ℤ (pos max_prefix) (wanted_prefix env))) [
              | inl bad ↦
                  let no : err (bad_prefix (wanted_prefix env) super) ≡ ok n =
                    sym (simp (auto_allocate, e, bad)) ∙ h in
                  cc
              | inr good ↦
                  let f =
                    ok_of_search
                      (search_supernet reserved used (pos_part (wanted_prefix env)) super)
                      (no_free_network (wanted_prefix env) super) n
                      (sym (simp (auto_allocate, e, good)) ∙ h) in
                  (
                    passes_of_free reserved used n (
                        search_supernet_free reserved used (pos_part (wanted_prefix env)) super n
                          f),
                    search_supernet-IsNet reserved used (pos_part (wanted_prefix env)) super n
                        (parse_cidr-IsNet (getenv env (codes "KAAS_NET_SUPERNET") default_supernet)
                          super e)
                        (ground arith) (ground arith) f,
                  )
            ]
    ]

pub validate_requested-IsAdmitted :
    (requested : Text) (reserved used : List IpNet) (n : IpNet)
    → validate_requested requested reserved used ≡ ok n
    → IsAdmitted reserved used n
unfolding validate_requested
validate_requested-IsAdmitted requested reserved used n h =
    elim (Option-cases (parse_cidr (trim_space requested))) [
      | inl e ↦
          let bad : err (not_ipv4_cidr requested) ≡ ok n = sym (simp (validate_requested, e)) ∙ h in
          cc
      | inr (m, e) ↦ elim (Bool-cases (ltb m.ones min_prefix || ltb max_prefix m.ones)) [
        | inl out ↦
            let bad : err (prefix_out_of_range m.ones) ≡ ok n =
              sym (simp (validate_requested, e, out)) ∙ h in
            cc
        | inr within ↦ elim (Option-cases (overlap_name m reserved)) [
          | inr (o, e') ↦
              let bad : err (overlaps_reserved m o) ≡ ok n =
                sym (simp (validate_requested, e, within, e')) ∙ h in
              cc
          | inl r ↦ elim (Option-cases (overlap_name m used)) [
            | inr (o, e') ↦
                let bad : err (overlaps_used m o) ≡ ok n =
                  sym (simp (validate_requested, e, within, r, e')) ∙ h in
                cc
            | inl u ↦
                let same : ok m ≡ ok n = sym (simp (validate_requested, e, within, r, u)) ∙ h in
                let m≡n : m ≡ n = cc in
                subst (IsAdmitted reserved used) m≡n (
                  (
                    λ i o g. overlap_name-none m reserved i o r g,
                    λ i o g. overlap_name-none m used i o u g,
                  ),
                  parse_cidr-IsNet (trim_space requested) m e,
                )
          ]
        ]
      ]
    ]
