-- ===== src/Repair/Merge.antt =====
-- internal/domain/repair.go: MergeFaults, which folds observed faults into the durable state.
pub mod Pointwise
pub mod Episodes
use kaa_s_demo.Prelude.{
  ℕ, Bool, true, false, ◌&&◌, Option, none, some, List, [], ◌∷◌, Text, ltb, if◌then◌else◌,
}
use kaa_s_demo.Prelude.Int.{pos, leb_ℤ, ltb_ℤ}
use kaa_s_demo.Prelude.Dict.{Dict, empty, get, put, remove, keys}
use kaa_s_demo.Prelude.Keys.{is_some, for_keys}
use kaa_s_demo.Go.Int64.{mul64}
use kaa_s_demo.Go.Time.{Time, Duration, hour, sub}
use kaa_s_demo.Domain.Node.{Node}
use kaa_s_demo.Domain.Observed.{
  NodeFault, not_ready, missing, vm_down, NodeRepairState, no_state, ClusterRepair, recovered,
  re_failed,
}
use kaa_s_demo.Domain.Cluster.{Cluster}
use kaa_s_demo.Repair.{RepairPolicy, state}

abbrev pub same_fault : Option NodeFault → NodeFault → Bool
same_fault (some not_ready) not_ready = true
same_fault (some missing) missing = true
same_fault (some vm_down) vm_down = true
same_fault _ _ = false

-- live[vm] = true for every node
pub live_nodes : List Node → Dict Bool → Dict Bool
live_nodes [] live = live
live_nodes (n ∷ ns) live = live_nodes ns (put live n.vm_name true)

-- the body of the loop that drops departed nodes
pub drop_departed : Dict Bool → Dict NodeRepairState → Text → Dict NodeRepairState
drop_departed live nodes vm = if is_some (get live vm) then nodes else remove nodes vm

-- a recovered node, which keeps its count of attempts
unfoldable pub recovered_state : Time → NodeRepairState → NodeRepairState
recovered_state now st = record no_state {
  repaired_at = some now;
  attempts = st.attempts;
  note = if ltb 0 st.attempts then some (recovered st.attempts) else none;
}

-- *st = st', or delete(nodes, vm)
pub set_entry : Dict NodeRepairState → Text → Option NodeRepairState → Dict NodeRepairState
set_entry nodes vm none = remove nodes vm
set_entry nodes vm (some st) = put nodes vm st

module _ {F : Type 0} where
  unfoldable pub flap_window : RepairPolicy F → Duration
  flap_window p = if leb_ℤ p.backoff (pos 0) then hour else mul64 (pos 4) p.backoff

  -- t != nil && now.Sub(*t) > flapWindow, and the same with <=
  pub aged_out : RepairPolicy F → Time → Option Time → Bool
  unfolding flap_window
  aged_out p now none = false
  aged_out p now (some t) = ltb_ℤ (flap_window p) (sub now t)

  unfoldable pub is_flapping : RepairPolicy F → Time → Option Time → Bool
  unfolding flap_window
  is_flapping p now none = false
  is_flapping p now (some t) = leb_ℤ (sub now t) (flap_window p)

  -- a new episode, with the attempts of the one that it continues
  unfoldable pub new_episode : RepairPolicy F → Time → NodeFault → NodeRepairState → NodeRepairState
  unfolding is_flapping
  new_episode p now fault st =
      let carried : ℕ = if is_flapping p now st.repaired_at then st.attempts else 0 in
      record no_state {
        fault = some fault;
        unhealthy_since = some now;
        attempts = carried;
        note = if ltb 0 carried then some (re_failed (flap_window p)) else none;
      }

  -- the `switch` on a node's fault, if it has one, and on its state; `none` deletes the entry
  unfoldable pub merged :
      RepairPolicy F → Time → Option NodeFault → NodeRepairState → Option NodeRepairState
  unfolding aged_out new_episode recovered_state
  merged p now none st =
      if is_some st.fault
      then some (recovered_state now st)
      else if aged_out p now st.repaired_at
      then none
      else some st
  merged p now (some fault) st =
      if same_fault st.fault fault && is_some st.unhealthy_since
      then some st
      else some (new_episode p now fault st)

  -- the body of the loop over live nodes: *st is written in place, or its entry deleted
  pub merge_node :
      RepairPolicy F → Time → Dict NodeFault → Dict NodeRepairState → Text → Dict NodeRepairState
  unfolding state merged set_entry
  merge_node p now faults nodes vm =
      let (nodes', st) = state nodes vm in set_entry nodes' vm (merged p now (get faults vm) st)

  unfoldable pub merge_faults :
      ClusterRepair → Cluster → Dict NodeFault → RepairPolicy F → Time → ClusterRepair
  unfolding live_nodes drop_departed merge_node
  merge_faults r c faults p now =
      let live = live_nodes c.nodes empty in
      let kept = for_keys (drop_departed live) (keys r.nodes) r.nodes in
      record r { nodes = for_keys (merge_node p now faults) (keys live) kept }
