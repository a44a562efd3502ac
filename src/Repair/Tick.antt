-- ===== src/Repair/Tick.antt =====
-- internal/reconcile/repair.go: the Ready tick of a cluster's repair (reconcileRepair), from what
-- the store and the provisioner answer. The clock is an argument.
pub mod State
pub mod Budget
use kaa_s_demo.Prelude.{
  ℕ, suc, Bool, false, not, ◌&&◌, Option, none, some, List, [], ◌∷◌, ◌++◌, Text, ◌==◌, ltb,
  if◌then◌else◌,
}
use kaa_s_demo.Prelude.Int.{pos}
use kaa_s_demo.Prelude.Dict.{Dict, get, put, keys, empty}
use kaa_s_demo.Go.Time.{Time}
use kaa_s_demo.Go.Float.{Float}
use kaa_s_demo.Domain.Phase.{is_ready, repairing}
use kaa_s_demo.Domain.Health.{HealthSnapshot, is_unhealthy}
use kaa_s_demo.Domain.Observed.{NodeFault, Note, NodeRepairState}
use kaa_s_demo.Domain.Cluster.{Cluster}
use kaa_s_demo.Repair.{RepairPlan, RepairPolicy, RepairObservation, Reason, repair_state, act}
use kaa_s_demo.Repair.Observe.{observe_faults}
use kaa_s_demo.Repair.Merge.{merge_faults}
use kaa_s_demo.Repair.Plan.{plan}
use kaa_s_demo.Repair.Attempt.{record_attempt}

-- What the store answers for a cluster's health: a snapshot, ErrNotFound, or another error.
pub data HealthRead : Type 0 where
  stored : HealthSnapshot → HealthRead
  never_taken read_failed : HealthRead

-- What the provisioner answers for the VMs' power state.
pub data PowerRead : Type 0 where
  polled : Dict Bool → PowerRead
  unsupported poll_failed : PowerRead

-- The events of a tick.
pub data Event (F : Type 0) : Type 0 where
  gave_up_on : Text → Note → Event F
  node_faulty : Text → NodeFault → Event F
  node_recovered : Text → ℕ → Event F
  auto_repair : Reason F → Event F

-- t != nil && t.Equal(u)
abbrev is_at : Option Time → Time → Bool
is_at none u = false
is_at (some t) u = t == u

abbrev pub is_ill : HealthRead → Bool
is_ill (stored s) = is_unhealthy s.status
is_ill never_taken = false
is_ill read_failed = false

-- the loop of fleetUnhealthy: the Ready clusters, and those of them that are unhealthy
pub fleet_counts : (Text → HealthRead) → ℕ → ℕ → List Cluster → ℕ × ℕ
fleet_counts health live bad [] = (live, bad)
fleet_counts health live bad (c ∷ cs) =
    fleet_counts health (if is_ready c.phase then suc live else live)
      (if is_ready c.phase && is_ill (health c.id) then suc bad else bad) cs

abbrev pub snapshot_of : HealthRead → Option HealthSnapshot
snapshot_of (stored s) = some s
snapshot_of never_taken = none
snapshot_of read_failed = none

abbrev pub powers_of : PowerRead → Dict Bool
powers_of (polled up) = up
powers_of unsupported = empty
powers_of poll_failed = empty

module _ {F : Type 0} where
  -- `case st.Fault != "" && …`, `case st.Fault == "" && …`
  fault_event : Time → Text → NodeRepairState → Option NodeFault → List (Event F)
  fault_event at vm st (some fault) =
      if (st.attempts == 0) && is_at st.unhealthy_since at then node_faulty vm fault ∷ [] else []
  fault_event at vm st none =
      if is_at st.repaired_at at && ltb 0 st.attempts
      then node_recovered vm st.attempts ∷ []
      else []

  -- the `switch` of emitFaultChanges; the note of a suspended node is said once
  unfoldable pub announced : Time → Text → NodeRepairState → NodeRepairState × List (Event F)
  unfolding fault_event
  announced at vm st = elim (if st.suspended then st.note else none) [
    | none ↦ (st, fault_event at vm st st.fault)
    | some note ↦ (record st { note = none }, gave_up_on vm note ∷ [])
  ]

  unfoldable pub emit_fault_changes :
      Time → List Text → Dict NodeRepairState → Dict NodeRepairState × List (Event F)
  unfolding announced
  emit_fault_changes at [] nodes = (nodes, [])
  emit_fault_changes at (vm ∷ vms) nodes = elim (get nodes vm) [
    | none ↦ emit_fault_changes at vms nodes
    | some st ↦
        let (st', said) = announced at vm st in
        let (nodes', rest) = emit_fault_changes at vms (put nodes vm st') in (nodes', said ++ rest)
  ]

module _ {F : Type 0} where
  -- the observing half: the faults folded into the durable state, and what is said of them
  unfoldable pub observed :
      RepairPolicy F → Cluster → RepairObservation F → Dict NodeFault → Cluster × List (Event F)
  observed p c obs faults =
      let merged = record (merge_faults (repair_state c) c faults p obs.now) {
        observed_at = obs.now;
      } in
      let (nodes, said) = emit_fault_changes obs.now (keys merged.nodes) merged.nodes in
      (record c { repair = some (record merged { nodes = nodes }) }, said)

  -- the deciding half: the attempt is recorded before anything runs
  unfoldable pub promoted :
      RepairPolicy F
      → Time
      → List (Event F)
      → RepairPlan
      → Reason F
      → Cluster
      → Cluster × List (Event F)
  promoted p now said pl why c = if not (act pl) then (c, said) else (
    record c { phase = repairing; repair = some (record_attempt (repair_state c) pl p now) },
    said ++ auto_repair why ∷ [],
  )

module _ {F : Type 0} (fl : Float F) where
  open fl use {of_int, quot}

  -- fleetUnhealthy: the share of the Ready clusters that are unhealthy, and their number
  unfoldable pub fleet_unhealthy : (Text → HealthRead) → List Cluster → F × ℕ
  unfolding fleet_counts
  fleet_unhealthy health clusters =
      let (live, bad) = fleet_counts health 0 0 clusters in
      if live == 0 then (of_int (pos 0), 0) else (quot (of_int (pos bad)) (of_int (pos live)), bad)

  unfoldable pub decide_repair :
      RepairPolicy F → Cluster → RepairObservation F → Cluster × List (Event F)
  decide_repair p c obs =
      let (faults, observable) = observe_faults c obs p in
      let (c', said) = observed p c obs faults in
      let (pl, why, planned) = plan fl p c' obs faults observable in
      promoted p obs.now said pl why planned

  -- reconcileRepair; `none` is an error, which leaves the cluster as it was stored
  unfoldable pub reconcile_repair :
      RepairPolicy F
      → HealthRead
      → PowerRead
      → Option (F × ℕ)
      → Time
      → Cluster
      → Option (Cluster × List (Event F))
  unfolding decide_repair
  reconcile_repair p read_failed power fleet now c = none
  reconcile_repair p health power none now c = none
  reconcile_repair p health power (some (share, n)) now c = some (
      decide_repair p c (record {
        health = snapshot_of health;
        powered = powers_of power;
        fleet_unhealthy = share;
        fleet_unhealthy_n = n;
        now = now;
      }))
