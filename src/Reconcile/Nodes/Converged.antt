-- ===== src/Reconcile/Nodes/Converged.antt =====
-- internal/reconcile/reconcile.go: when the VMs of a cluster are the desired ones.
use mathlib.Core.Logic.{∥∥₁_elim}
use mathlib.Core.Bool.{Bool-set}
use mathlib.Core.List.{Perm, Permᴰ}
use kaa_s_demo.Prelude.{
  Text, [], ◌∷◌, none, true, List, ◌≡◌, ◌↔◌, map, length, length-map, refl, sym, ◌∙◌, ap, arith,
}
use kaa_s_demo.Domain.Cluster.{Cluster}
use kaa_s_demo.Domain.Desired.{
  DesiredNode, desired_nodes, vm_names, node_vm_names, validate_node_pools,
}
use kaa_s_demo.Domain.Desired.Distinct.{node_vm_names_distinct}
use kaa_s_demo.Reconcile.Nodes.{
  node_spec, node_specs, nodes_converged, spec_name, node_name, all_in,
}
use kaa_s_demo.Reconcile.Nodes.Matching.{
  all_in-Perm, length-Permᴰ, has-Permᴰ, all_in-has, all_in_self,
}

specs_names :
    (c : Cluster) (image : Text) (ds : List DesiredNode)
    → map spec_name (map (node_spec c image) ds) ≡ vm_names ds
unfolding vm_names
specs_names c image [] = refl
specs_names c image (d ∷ ds) = ap (λ (ks : List Text). d.vm_name ∷ ks) (specs_names c image ds)

node_specs_names : (c : Cluster) → map spec_name (node_specs c) ≡ node_vm_names c
unfolding node_specs node_vm_names
node_specs_names c = specs_names c _ (desired_nodes c)

-- the test by its two lists of names
by_names :
    (c : Cluster)
    → (nodes_converged c ≡ true) ↔ (
        (length (node_vm_names c) ≡ length (map node_name c.nodes))
        × (all_in (node_vm_names c) (map node_name c.nodes) ≡ true))
unfolding nodes_converged
by_names c =
    rw (← node_specs_names c, length-map (node_specs c) spec_name, length-map c.nodes node_name)
      (ground arith)

permuted : (xs ys : List Text) → Permᴰ xs ys → (length xs ≡ length ys) × (all_in xs ys ≡ true)
permuted xs ys p = (length-Permᴰ p, all_in-has xs ys xs (λ k. sym (has-Permᴰ k p)) ∙ all_in_self xs)

-- If a cluster's pools pass their checks, its VMs count as converged exactly when their names are
-- those of the desired nodes, each as often as it is desired, in any order: none is missing, and
-- none is left over.
pub nodes_converged_iff :
    (c : Cluster)
    → validate_node_pools c.name c.node_pools ≡ none
    → (nodes_converged c ≡ true) ↔ Perm (node_vm_names c) (map node_name c.nodes)
nodes_converged_iff c h = (
  λ e.
      let (same, among) = (by_names c).0 e in
      all_in-Perm (node_vm_names c) (map node_name c.nodes) (node_vm_names_distinct c h) same among,
  λ p.
      ∥∥₁_elim p (Bool-set (nodes_converged c) true)
        (λ q. (by_names c).1 (permuted (node_vm_names c) (map node_name c.nodes) q)),
)
