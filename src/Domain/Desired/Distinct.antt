-- ===== src/Domain/Desired/Distinct.antt =====
-- internal/domain/domain.go: checked pools give distinct VM names.
use kaa_s_demo.Domain.Cluster.{control_plane_count, Cluster}
use kaa_s_demo.Prelude.Any.{any}
use kaa_s_demo.Prelude.Int.{pos_part}
use mathlib.Core.Path.{ap₂, subst}
use kaa_s_demo.Prelude.{
  Bool-cases, some, text_eq_iff, Option-cases, true, false, sym, text_eq_refl, ◌<◌, text_eq, arith,
  none, ℕ, refl, ap, ◌∙◌, ◌++◌, ◌≢◌, ◌≡◌, Text, List, [], ◌∷◌, inl, inr, zero, suc,
}
use kaa_s_demo.Domain.Node.{NodePool}
use kaa_s_demo.Domain.Desired.{
  vm_name_of, nodes_from, pool_nodes, desired_nodes, vm_names, node_vm_names, validate_node_pools,
  validate_pools, validate_pool_name, validate_pool, DesiredNode, control_plane_node, pool_node,
  control_plane_infix, duplicate_pool,
}
use kaa_s_demo.Domain.Desired.Names.{
  Absent, AllDistinct, named_from, vm_names-nodes_from, vm_name_of_injective,
}

-- the names of all pools' nodes
pool_names : Text → List NodePool → List Text
pool_names cluster [] = []
pool_names cluster (p ∷ ps) =
    named_from cluster p.name 0 (pos_part p.desired_workers) ++ pool_names cluster ps

vm_names-append : (ms ns : List DesiredNode) → vm_names (ms ++ ns) ≡ vm_names ms ++ vm_names ns
unfolding vm_names
vm_names-append [] ns = refl
vm_names-append (m ∷ ms) ns = ap (λ (t : List Text). m.vm_name ∷ t) (vm_names-append ms ns)

vm_names-pool_nodes :
    (cluster : Text) (ps : List NodePool) → vm_names (pool_nodes cluster ps) ≡ pool_names cluster ps
unfolding pool_nodes pool_names vm_names
vm_names-pool_nodes cluster [] = refl
vm_names-pool_nodes cluster (p ∷ ps) =
    vm_names-append (nodes_from (pool_node cluster p) 0 (pos_part p.desired_workers))
      (pool_nodes cluster ps)
    ∙ ap₂ (λ (xs ys : List Text). xs ++ ys)
        (vm_names-nodes_from cluster p.name (pool_node cluster p) (λ i. refl) 0
          (pos_part p.desired_workers))
        (vm_names-pool_nodes cluster ps)

Absent-append : (x : Text) (xs ys : List Text) → Absent x xs → Absent x ys → Absent x (xs ++ ys)
unfolding Absent
Absent-append x [] ys a b = b
Absent-append x (y ∷ xs) ys (ne, a) b = (ne, Absent-append x xs ys a b)

-- a name is not among those of another group, nor among those of higher number
not_among_others :
    (cluster p q : Text) (i j n : ℕ)
    → p ≢ q
    → Absent (vm_name_of cluster p i) (named_from cluster q j n)
unfolding Absent named_from
not_among_others cluster p q i j zero ne = tt
not_among_others cluster p q i j (suc n) ne = (
  λ e. ne (vm_name_of_injective cluster p q i j e).0,
  not_among_others cluster p q i (suc j) n ne,
)

not_among_later :
    (cluster p : Text) (i j n : ℕ)
    → i < j
    → Absent (vm_name_of cluster p i) (named_from cluster p j n)
unfolding Absent named_from
not_among_later cluster p i j zero h = tt
not_among_later cluster p i j (suc n) h = (
  λ e. absurd (lt_irrefl i j h (vm_name_of_injective cluster p p i j e).1),
  not_among_later cluster p i (suc j) n (omega arith),
)
  where
    lt_irrefl : (a b : ℕ) → a < b → a ≡ b → ⊥
    lt_irrefl a b h e = omega arith

-- no pool has the name
Unused : Text → List NodePool → Type 0
Unused p [] = Unit
Unused p (q ∷ qs) = (p ≢ q.name) × Unused p qs

DistinctPools : List NodePool → Type 0
DistinctPools [] = Unit
DistinctPools (p ∷ ps) = Unused p.name ps × DistinctPools ps

not_among_pools :
    (cluster p : Text) (i : ℕ) (qs : List NodePool)
    → Unused p qs
    → Absent (vm_name_of cluster p i) (pool_names cluster qs)
unfolding Unused pool_names Absent
not_among_pools cluster p i [] u = tt
not_among_pools cluster p i (q ∷ qs) (ne, u) =
    Absent-append (vm_name_of cluster p i)
      (named_from cluster q.name 0 (pos_part q.desired_workers)) (pool_names cluster qs)
      (not_among_others cluster p q.name i 0 (pos_part q.desired_workers) ne)
      (not_among_pools cluster p i qs u)

-- a group before the pools that do not have its name
group_distinct :
    (cluster p : Text) (i n : ℕ) (qs : List NodePool)
    → Unused p qs
    → AllDistinct (pool_names cluster qs)
    → AllDistinct (named_from cluster p i n ++ pool_names cluster qs)
unfolding AllDistinct named_from
group_distinct cluster p i zero qs u d = d
group_distinct cluster p i (suc n) qs u d = (
  Absent-append (vm_name_of cluster p i) (named_from cluster p (suc i) n) (pool_names cluster qs)
      (not_among_later cluster p i (suc i) n (omega arith)) (not_among_pools cluster p i qs u),
  group_distinct cluster p (suc i) n qs u d,
)

pools_distinct :
    (cluster : Text) (ps : List NodePool) → DistinctPools ps → AllDistinct (pool_names cluster ps)
unfolding DistinctPools pool_names AllDistinct
pools_distinct cluster [] d = tt
pools_distinct cluster (p ∷ ps) (u, d) =
    group_distinct cluster p.name 0 (pos_part p.desired_workers) ps u (pools_distinct cluster ps d)

pool_checks :
    (cluster : Text) (seen : List Text) (p : NodePool) (ps : List NodePool)
    → validate_pools cluster seen (p ∷ ps) ≡ none
    → (validate_pool_name cluster p.name ≡ none)
      × (any (λ n. text_eq n p.name) seen ≡ false)
      × (validate_pools cluster (p.name ∷ seen) ps ≡ none)
unfolding validate_pools
pool_checks cluster seen p ps h = elim (Option-cases (validate_pool_name cluster p.name)) [
  | inr (e, bad) ↦ let no : some e ≡ none = sym (simp (validate_pools, bad)) ∙ h in cc
  | inl named ↦ elim (Bool-cases (any (λ n. text_eq n p.name) seen)) [
    | inl dup ↦
        let no : some (duplicate_pool p.name) ≡ none =
          sym (simp (validate_pools, named, dup)) ∙ h in
        cc
    | inr fresh ↦ elim (Option-cases (validate_pool p)) [
      | inr (e, bad) ↦
          let no : some e ≡ none = sym (simp (validate_pools, named, fresh, bad)) ∙ h in cc
      | inl fine ↦ (named, fresh, sym (simp (validate_pools, named, fresh, fine)) ∙ h)
    ]
  ]
]

still_listed :
    (y x : Text) (seen : List Text)
    → any (λ n. text_eq n x) seen ≡ true
    → any (λ n. text_eq n x) (y ∷ seen) ≡ true
unfolding any
still_listed y x seen h = ground arith

seen_once :
    (cluster x : Text) (seen : List Text) (ps : List NodePool)
    → validate_pools cluster seen ps ≡ none
    → any (λ n. text_eq n x) seen ≡ true
    → Unused x ps
unfolding Unused
seen_once cluster x seen [] h listed = tt
seen_once cluster x seen (p ∷ ps) h listed =
    let (named, fresh, rest) = pool_checks cluster seen p ps h in
    (
      λ e.
          let bad : any (λ n. text_eq n x) seen ≡ false =
            subst (λ (y : Text). any (λ n. text_eq n y) seen ≡ false) (sym e) fresh in
          absurd (ground arith),
      seen_once cluster x (p.name ∷ seen) ps rest (still_listed p.name x seen listed),
    )

checked_distinct :
    (cluster : Text) (seen : List Text) (ps : List NodePool)
    → validate_pools cluster seen ps ≡ none
    → DistinctPools ps
unfolding DistinctPools any
checked_distinct cluster seen [] h = tt
checked_distinct cluster seen (p ∷ ps) h =
    let (named, fresh, rest) = pool_checks cluster seen p ps h in
    (
      seen_once cluster p.name (p.name ∷ seen) ps rest (ground (arith, text_eq_refl p.name)),
      checked_distinct cluster (p.name ∷ seen) ps rest,
    )

not_reserved :
    (cluster name : Text) → validate_pool_name cluster name ≡ none → control_plane_infix ≢ name
unfolding validate_pool_name
not_reserved cluster name h e =
    let is_cp : text_eq name control_plane_infix ≡ true =
      (text_eq_iff name control_plane_infix).1 (sym e) in
    absurd (ground arith)

cp_is_free :
    (cluster : Text) (seen : List Text) (ps : List NodePool)
    → validate_pools cluster seen ps ≡ none
    → Unused control_plane_infix ps
unfolding Unused
cp_is_free cluster seen [] h = tt
cp_is_free cluster seen (p ∷ ps) h =
    let (named, fresh, rest) = pool_checks cluster seen p ps h in
    (not_reserved cluster p.name named, cp_is_free cluster (p.name ∷ seen) ps rest)

-- If a cluster's pools pass their checks, no two of its nodes, control planes included, have the
-- same VM name.
pub node_vm_names_distinct :
    (c : Cluster) → validate_node_pools c.name c.node_pools ≡ none → AllDistinct (node_vm_names c)
unfolding node_vm_names desired_nodes validate_node_pools
node_vm_names_distinct c h = subst AllDistinct (sym names) (
    group_distinct c.name control_plane_infix 0 (pos_part (control_plane_count c)) c.node_pools
      (cp_is_free c.name [] c.node_pools h)
      (pools_distinct c.name c.node_pools (checked_distinct c.name [] c.node_pools h)))
  where
    names :
        vm_names (
          nodes_from (control_plane_node c) 0 (pos_part (control_plane_count c))
          ++ pool_nodes c.name c.node_pools)
        ≡ named_from c.name control_plane_infix 0 (pos_part (control_plane_count c))
          ++ pool_names c.name c.node_pools
    names =
        vm_names-append (nodes_from (control_plane_node c) 0 (pos_part (control_plane_count c)))
          (pool_nodes c.name c.node_pools)
        ∙ ap₂ (λ (xs ys : List Text). xs ++ ys)
            (vm_names-nodes_from c.name control_plane_infix (control_plane_node c) (λ i. refl) 0
              (pos_part (control_plane_count c)))
            (vm_names-pool_nodes c.name c.node_pools)
