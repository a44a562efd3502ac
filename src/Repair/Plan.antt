-- ===== src/Repair/Plan.antt =====
-- internal/domain/repair.go: Plan, the one repair to perform now.
pub mod View
pub mod Choice
pub mod Safety
use kaa_s_demo.Prelude.{
  ℕ, Bool, not, ◌&&◌, Option, none, some, List, [], ◌∷◌, ◌++◌, ltb, leb, ◌==◌, if◌then◌else◌, Text,
  length,
}
use kaa_s_demo.Prelude.Int.{pos}
use kaa_s_demo.Prelude.Dict.{Dict, get, size}
use kaa_s_demo.Go.Float.{Float}
use kaa_s_demo.Go.Time.{Time}
use kaa_s_demo.Domain.Node.{Node}
use kaa_s_demo.Domain.Observed.{NodeFault, NodeRepairState}
use kaa_s_demo.Domain.Cluster.{Cluster, workers_of, control_planes_of}
use kaa_s_demo.Repair.{
  RepairPolicy, RepairObservation, RepairPlan, no_plan, Reason, repair_state, state, disabled,
  not_observable, all_healthy, no_actionable_fault, fleet_wide, cluster_wide, left_alone, repairing,
}
use kaa_s_demo.Repair.Action.{next_action}

-- c.RepairState().State(vm): the lookup leaves an entry behind, so the cluster comes back too
unfoldable pub node_state : Cluster → Text → Cluster × NodeRepairState
unfolding repair_state state
node_state c vm =
    let r = repair_state c in
    let (nodes, st) = state r.nodes vm in
    (record c { repair = some (record r { nodes = nodes }) }, st)

-- What Plan returns, with the cluster that it leaves.
abbrev pub Planned : Type 0 → Type 0
Planned F = RepairPlan × Reason F × Cluster

module _ {F : Type 0} where
  -- `if skipped == "" { skipped = … }`
  abbrev pub first_skipped : Option (Reason F) → Reason F → Option (Reason F)
  first_skipped none r = some r
  first_skipped (some s) r = some s

  abbrev reason_skipped : Option (Reason F) → Reason F
  reason_skipped none = no_actionable_fault
  reason_skipped (some s) = s

  -- the loop over the nodes, from what it has skipped so far
  unfoldable pub plan_nodes :
      RepairPolicy F → Dict NodeFault → Time → Option (Reason F) → Cluster → List Node → Planned F
  unfolding node_state
  plan_nodes p faults now skipped c [] = (no_plan, reason_skipped skipped, c)
  plan_nodes p faults now skipped c (n ∷ ns) = elim (get faults n.vm_name) [
    | none ↦ plan_nodes p faults now skipped c ns
    | some fault ↦
        let (c', st) = node_state c n.vm_name in
        let (action, why) = next_action p c' n st fault now in
        elim action [
          | none ↦ plan_nodes p faults now (first_skipped skipped (left_alone n.vm_name why)) c' ns
          | some a ↦ (
            record { target = n.vm_name; action = some a; fault = some fault },
            repairing n.vm_name fault why,
            c',
          )
        ]
  ]

module _ {F : Type 0} (fl : Float F) where
  open fl use {of_int, quot, exceeds}

  abbrev zero_float : F
  zero_float = of_int (pos 0)

  -- the fleet-wide breaker
  unfoldable pub fleet_breaker : RepairPolicy F → RepairObservation F → Bool
  fleet_breaker p obs =
      exceeds p.max_unhealthy_clusters zero_float
      && leb 2 obs.fleet_unhealthy_n
      && exceeds obs.fleet_unhealthy p.max_unhealthy_clusters

  -- the blast-radius guard of one cluster, from the number of its nodes and of its faults
  unfoldable pub blast_guard : RepairPolicy F → ℕ → ℕ → Bool
  blast_guard p total faulty =
      ltb 0 total
      && exceeds p.max_unhealthy_fraction zero_float
      && ltb 1 faulty
      && exceeds (quot (of_int (pos faulty)) (of_int (pos total))) p.max_unhealthy_fraction

  unfoldable pub plan :
      RepairPolicy F → Cluster → RepairObservation F → Dict NodeFault → Bool → Planned F
  plan p c obs faults observable =
      if not p.enabled
      then (no_plan, disabled, c)
      else if fleet_breaker p obs
      then (
        no_plan,
        fleet_wide obs.fleet_unhealthy_n obs.fleet_unhealthy p.max_unhealthy_clusters (size faults),
        c,
      )
      else if size faults == 0
      then (no_plan, (if observable then all_healthy else not_observable), c)
      else if blast_guard p (length c.nodes) (size faults)
      then (no_plan, cluster_wide (size faults) (length c.nodes) p.max_unhealthy_fraction, c)
      else plan_nodes p faults obs.now none c (workers_of c ++ control_planes_of c)
