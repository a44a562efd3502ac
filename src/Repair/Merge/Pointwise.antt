-- ===== src/Repair/Merge/Pointwise.antt =====
-- MergeFaults, one VM at a time: its loops over maps do the same in any order.
use kaa_s_demo.Prelude.{
  Bool, true, ◌||◌, Option, none, some, List, [], ◌∷◌, Text, text_eq, text_eq_iff, refl, ◌≡◌, ◌∙◌,
  arith, if◌then◌else◌, Bool-cases, inl, inr,
}
use kaa_s_demo.Prelude.Dict.{Dict, empty, get, keys, get-put, get-remove, get-empty}
use kaa_s_demo.Prelude.Keys.{
  is_some, has, has-keys, IsDistinct, put-IsDistinct, keys-empty-IsDistinct, for_keys, get-for_keys,
}
use kaa_s_demo.Prelude.Any.{any}
use kaa_s_demo.Go.Time.{Time}
use kaa_s_demo.Domain.Node.{Node}
use kaa_s_demo.Domain.Observed.{NodeFault, NodeRepairState, no_state, ClusterRepair}
use kaa_s_demo.Domain.Cluster.{Cluster}
use kaa_s_demo.Repair.{RepairPolicy, state, or_no_state}
use kaa_s_demo.Repair.Observe.Faults.{has_vm}
use kaa_s_demo.Repair.Merge.{set_entry, live_nodes, drop_departed, merged, merge_node, merge_faults}

get-live_nodes :
    (ns : List Node) (live : Dict Bool) (vm : Text)
    → is_some (get (live_nodes ns live) vm) ≡ (has_vm ns vm || is_some (get live vm))
unfolding live_nodes any
get-live_nodes [] live vm = refl
get-live_nodes (n ∷ ns) live vm =
    get-live_nodes ns _ vm ∙ ground (arith, get-put live n.vm_name vm true)

live_nodes-IsDistinct :
    (ns : List Node) (live : Dict Bool)
    → IsDistinct (keys live)
    → IsDistinct (keys (live_nodes ns live))
unfolding live_nodes
live_nodes-IsDistinct [] live h = h
live_nodes-IsDistinct (n ∷ ns) live h =
    live_nodes-IsDistinct ns _ (put-IsDistinct live n.vm_name true h)

-- an entry that is kept if its node is live
abbrev kept_if : Bool → Option NodeRepairState → Option NodeRepairState
kept_if b o = if b then o else none

get-drop_departed :
    (live : Dict Bool) (nodes : Dict NodeRepairState) (k j : Text)
    → get (drop_departed live nodes k) j
      ≡ (if text_eq k j then kept_if (is_some (get live k)) (get nodes k) else get nodes j)
unfolding drop_departed
get-drop_departed live nodes k j = elim (Bool-cases (text_eq k j)) [
  | inl same ↦ rw ((text_eq_iff k j).0 same) (ground (arith, get-remove nodes j j, text_eq_iff j j))
  | inr other ↦ ground (arith, get-remove nodes k j)
]

-- Dropping an entry twice is dropping it once, so the keys need not be distinct here.
get-drop_all :
    (live : Dict Bool) (ks : List Text) (nodes : Dict NodeRepairState) (j : Text)
    → get (for_keys (drop_departed live) ks nodes) j
      ≡ (if has ks j then kept_if (is_some (get live j)) (get nodes j) else get nodes j)
unfolding for_keys has
get-drop_all live [] nodes j = refl
get-drop_all live (k ∷ ks) nodes j = elim (Bool-cases (text_eq k j)) [
  | inl same ↦
      rw ((text_eq_iff k j).0 same) (
        get-drop_all live ks _ j
        ∙ ground (arith, get-drop_departed live nodes j j, text_eq_iff j j))
  | inr other ↦ get-drop_all live ks _ j ∙ ground (arith, get-drop_departed live nodes k j)
]

get-drop_keys :
    (live : Dict Bool) (nodes : Dict NodeRepairState) (j : Text)
    → get (for_keys (drop_departed live) (keys nodes) nodes) j
      ≡ kept_if (is_some (get live j)) (get nodes j)
get-drop_keys live nodes j = get-drop_all live (keys nodes) nodes j ∙ rw has-keys (ground arith)

pub get-state :
    (nodes : Dict NodeRepairState) (k j : Text)
    → get (state nodes k).0 j
      ≡ (if text_eq k j then some (or_no_state (get nodes k)) else get nodes j)
unfolding state
get-state nodes k j = elim (Bool-cases (text_eq k j)) [
  | inl same ↦
      rw ((text_eq_iff k j).0 same) (ground (arith, get-put nodes j j no_state, text_eq_iff j j))
  | inr other ↦ ground (arith, get-put nodes k j no_state)
]

pub state_lem :
    (nodes : Dict NodeRepairState) (k : Text) → (state nodes k).1 ≡ or_no_state (get nodes k)
unfolding state
state_lem nodes k = ground arith

get-set_entry :
    (nodes : Dict NodeRepairState) (k j : Text) (o : Option NodeRepairState)
    → get (set_entry nodes k o) j ≡ (if text_eq k j then o else get nodes j)
unfolding set_entry
get-set_entry nodes k j none = get-remove nodes k j
get-set_entry nodes k j (some st) = get-put nodes k j st

module _ {F : Type 0} (p : RepairPolicy F) (now : Time) (faults : Dict NodeFault) where
  get-merge_node :
      (nodes : Dict NodeRepairState) (k j : Text)
      → get (merge_node p now faults nodes k) j ≡ (
          if text_eq k j
          then merged p now (get faults k) (or_no_state (get nodes k))
          else get nodes j)
  get-merge_node nodes k j =
      unfold merge_node in
      (get-set_entry (state nodes k).0 k j (merged p now (get faults k) (state nodes k).1)
        ∙ rw (state_lem, get-state) (ground arith))

  -- the entry that a node of the cluster has after the merge
  abbrev pub merged_entry : ClusterRepair → Text → Option NodeRepairState
  merged_entry r vm = merged p now (get faults vm) (or_no_state (get r.nodes vm))

  -- After MergeFaults the entry of a VM depends on its own fault and its own former entry alone:
  -- for a node of the cluster it is what the `switch` makes of them (or deleted), and a VM that is
  -- no longer a node has no entry. So the order in which Go walks its maps does not matter.
  pub get-merge_faults :
      (r : ClusterRepair) (c : Cluster) (vm : Text)
      → get (merge_faults r c faults p now).nodes vm
        ≡ (if has_vm c.nodes vm then merged_entry r vm else none)
  unfolding merge_faults
  get-merge_faults r c vm =
      get-for_keys (merge_node p now faults) merge_new get-merge_node (keys live) kept vm distinct
      ∙ rw (has-keys, live_lem) (rw kept_lem (ground arith))
    where
      live : Dict Bool
      live = live_nodes c.nodes empty

      kept : Dict NodeRepairState
      kept = for_keys (drop_departed live) (keys r.nodes) r.nodes

      merge_new : Text → Option NodeRepairState → Option NodeRepairState
      merge_new k o = merged p now (get faults k) (or_no_state o)

      distinct : IsDistinct (keys live)
      distinct = live_nodes-IsDistinct c.nodes empty (keys-empty-IsDistinct Bool)

      live_lem : is_some (get live vm) ≡ has_vm c.nodes vm
      live_lem = get-live_nodes c.nodes empty vm ∙ rw (get-empty {V = Bool} vm) (ground arith)

      kept_lem : get kept vm ≡ kept_if (has_vm c.nodes vm) (get r.nodes vm)
      kept_lem = get-drop_keys live r.nodes vm ∙ rw live_lem refl
