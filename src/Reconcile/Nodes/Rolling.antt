-- ===== src/Reconcile/Nodes/Rolling.antt =====
-- internal/reconcile/reconcile.go: the order of a rolling replacement.
use mathlib.Core.Path.{subst}
use kaa_s_demo.Domain.Phase.{is_control_plane}
use kaa_s_demo.Domain.Node.{Node}
use kaa_s_demo.Prelude.Any.{any}
use kaa_s_demo.Prelude.{
  some_inj, ◌∙◌, Option-cases, sym, text_eq, ◌&&◌, refl, arith, not, Bool-cases, ◌↔◌, ◌≡◌, Bool,
  List, Text, [], ◌∷◌, none, some, true, false, inl, inr,
}
use kaa_s_demo.Reconcile.Nodes.{first_node, next_node_to_roll, all_images}

abbrev pub is_old_worker : Text → Node → Bool
is_old_worker image n = not (is_control_plane n.role) && not (text_eq n.image image)

abbrev is_old_control_plane : Text → Node → Bool
is_old_control_plane image n = is_control_plane n.role && not (text_eq n.image image)

first_none : (test : Node → Bool) (ns : List Node) → first_node test ns ≡ none → any test ns ≡ false
unfolding first_node any
first_none test [] h = refl
first_none test (n ∷ ns) h = ground (arith, first_none test ns)

first_some :
    (test : Node → Bool) (ns : List Node) (n : Node) → first_node test ns ≡ some n → test n ≡ true
unfolding first_node
first_some test [] n h = cc
first_some test (m ∷ ns) n h = elim (Bool-cases (test m)) [
  | inl pass ↦
      let e : some m ≡ some n = sym (rw pass refl) ∙ h in
      subst (λ (x : Node). test x ≡ true) (some_inj e) pass
  | inr fail ↦ first_some test ns n (sym (rw fail refl) ∙ h)
]

images_iff :
    (image : Text) (ns : List Node)
    → any (is_old_worker image) ns ≡ false
    → any (is_old_control_plane image) ns ≡ false
    → all_images image ns ≡ true
unfolding all_images any
images_iff image [] h k = refl
images_iff image (n ∷ ns) h k = ground (arith, images_iff image ns)

none_old :
    (image : Text) (ns : List Node)
    → all_images image ns ≡ true
    → (first_node (is_old_worker image) ns ≡ none)
      × (first_node (is_old_control_plane image) ns ≡ none)
unfolding all_images first_node
none_old image [] h = (refl, refl)
none_old image (n ∷ ns) h =
    let (a, b) = none_old image ns (ground arith) in (ground arith, ground arith)

-- A roll finds no node exactly if all nodes have the image; a node that it finds has another image,
-- and if it is a control plane, no worker has another image.
pub next_node_to_roll_lem :
    (ns : List Node) (image : Text)
    → ((next_node_to_roll ns image ≡ none) ↔ (all_images image ns ≡ true))
      × ((n : Node)
          → next_node_to_roll ns image ≡ some n
          → (text_eq n.image image ≡ false)
            × (is_control_plane n.role ≡ true → any (is_old_worker image) ns ≡ false))
unfolding next_node_to_roll
next_node_to_roll_lem ns image =
    ((ended, λ h. let (a, b) = none_old image ns h in simp (next_node_to_roll, a, b)), chosen)
  where
    ended : next_node_to_roll ns image ≡ none → all_images image ns ≡ true
    ended h = elim (Option-cases (first_node (is_old_worker image) ns)) [
      | inl e ↦
          images_iff image ns (first_none (is_old_worker image) ns e)
            (first_none (is_old_control_plane image) ns (sym (simp (next_node_to_roll, e)) ∙ h))
      | inr (n, e) ↦ let found : some n ≡ none = sym (simp (next_node_to_roll, e)) ∙ h in cc
    ]

    chosen :
        (n : Node)
        → next_node_to_roll ns image ≡ some n
        → (text_eq n.image image ≡ false)
          × (is_control_plane n.role ≡ true → any (is_old_worker image) ns ≡ false)
    chosen n h = elim (Option-cases (first_node (is_old_worker image) ns)) [
      | inl e ↦
          let old =
            first_some (is_old_control_plane image) ns n (sym (simp (next_node_to_roll, e)) ∙ h) in
          (ground arith, λ _. first_none (is_old_worker image) ns e)
      | inr (m, e) ↦
          let found : some m ≡ some n = sym (simp (next_node_to_roll, e)) ∙ h in
          let old = first_some (is_old_worker image) ns n (e ∙ found) in
          (ground arith, λ cp. absurd (ground arith))
    ]
