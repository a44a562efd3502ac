-- ===== src/Repair/Plan/Choice.antt =====
-- Which repair Plan chooses: the first one that is due, workers before control planes.
use kaa_s_demo.Prelude.{
  Option-cases, ◌&&◌, Bool, not, Option, none, some, List, [], ◌∷◌, ◌++◌, refl, ◌≡◌, ◌∙◌, ap, sym,
  if◌then◌else◌, Bool-cases, inl, inr, length, ◌==◌,
}
use kaa_s_demo.Prelude.Dict.{Dict, get, size}
use kaa_s_demo.Go.Time.{Time}
use kaa_s_demo.Go.Float.{Float}
use kaa_s_demo.Domain.Node.{Node}
use kaa_s_demo.Domain.Observed.{NodeFault, RepairAction, NodeRepairState}
use kaa_s_demo.Domain.Cluster.{Cluster, workers_of, control_planes_of}
use kaa_s_demo.Repair.{left_alone, RepairPolicy, RepairObservation, RepairPlan, no_plan, Reason}
use kaa_s_demo.Repair.Action.{next_action}
use kaa_s_demo.Repair.Plan.{first_skipped, node_state, plan_nodes, plan, fleet_breaker, blast_guard}
use kaa_s_demo.Repair.Plan.View.{
  view, SameView, SameView-refl, SameView-trans, node_state-SameView, node_state_lem,
  next_action-SameView,
}

module _ {F : Type 0} (p : RepairPolicy F) (faults : Dict NodeFault) (now : Time)
    (c : Cluster) where
  -- the action that the policy has for a node that has the fault `f`
  abbrev pub action_for : Node → NodeFault → Option RepairAction
  action_for n f = (next_action p c n (view c n.vm_name) f now).0

  abbrev pub chosen : Node → NodeFault → RepairAction → RepairPlan
  chosen n f a = record { target = n.vm_name; action = some a; fault = some f }

  -- `Chosen ns pl`: the plan `pl` repairs the first node of `ns` that has a fault for which the
  -- policy has an action, or nothing if no node has one.
  pub data Chosen : List Node → RepairPlan → Type 0 where
    none_due : Chosen [] no_plan
    healthy :
        {n : Node} {ns : List Node} {pl : RepairPlan}
        → get faults n.vm_name ≡ none
        → Chosen ns pl
        → Chosen (n ∷ ns) pl
    not_due :
        {n : Node} {ns : List Node} {pl : RepairPlan} (f : NodeFault)
        → get faults n.vm_name ≡ some f
        → action_for n f ≡ none
        → Chosen ns pl
        → Chosen (n ∷ ns) pl
    due :
        {n : Node} {ns : List Node} (f : NodeFault) (a : RepairAction)
        → get faults n.vm_name ≡ some f
        → action_for n f ≡ some a
        → Chosen (n ∷ ns) (chosen n f a)

  -- what the loop returns, and that it leaves the cluster reading as before
  abbrev PlannedOk : List Node → RepairPlan × Reason F × Cluster → Type 0
  PlannedOk ns r = Chosen ns r.0 × SameView c r.2

  plan_nodes-Chosen :
      (skipped : Option (Reason F)) (c' : Cluster) (ns : List Node)
      → SameView c c'
      → PlannedOk ns (plan_nodes p faults now skipped c' ns)
  unfolding plan_nodes
  plan_nodes-Chosen skipped c' [] s = (none_due, s)
  plan_nodes-Chosen skipped c' (n ∷ ns) s = elim (Option-cases (get faults n.vm_name)) [
    | inl e ↦
        let (rest, same) = plan_nodes-Chosen skipped c' ns s in
        rw (e, plan_nodes) (healthy e rest, same)
    | inr (f, e) ↦ elim (Option-cases (next_action p looked n seen f now).0) [
      | inl left ↦
          let (rest, same) = plan_nodes-Chosen (next_skipped f) looked ns looked-SameView in
          rw (e, plan_nodes) (rw left (not_due f e (sym (read_alike f) ∙ left) rest, same))
      | inr (a, taken) ↦
          rw (e, plan_nodes) (rw taken (due f a e (sym (read_alike f) ∙ taken), looked-SameView))
    ]
  ]
    where
      looked : Cluster
      looked = (node_state c' n.vm_name).0

      seen : NodeRepairState
      seen = (node_state c' n.vm_name).1

      next_skipped : NodeFault → Option (Reason F)
      next_skipped f =
          first_skipped skipped (left_alone n.vm_name (next_action p looked n seen f now).1)

      looked-SameView : SameView c looked
      looked-SameView = SameView-trans c c' looked s (node_state-SameView c' n.vm_name)

      read_alike : (f : NodeFault) → (next_action p looked n seen f now).0 ≡ action_for n f
      read_alike f =
          ap (λ (st : NodeRepairState). (next_action p looked n st f now).0)
            (node_state_lem c' n.vm_name ∙ s.views n.vm_name)
          ∙ ap (λ (v : Option RepairAction × Reason F). v.0)
              (next_action-SameView p c looked n (view c n.vm_name) f now looked-SameView)

module _ {F : Type 0} (fl : Float F) (p : RepairPolicy F) (c : Cluster) (obs : RepairObservation F)
    (faults : Dict NodeFault) (observable : Bool) where
  -- The guards of Plan are passed: it is enabled, the fleet is not in an outage, some node is faulty,
  -- and not too large a share of the cluster's nodes is.
  abbrev pub passes_guards : Bool
  passes_guards =
      p.enabled
      && not (fleet_breaker fl p obs)
      && not (size faults == 0)
      && not (blast_guard fl p (length c.nodes) (size faults))

  -- The decision is nothing if a guard stops it; else the repair of the first node that has a
  -- fault for which the policy has an action now, workers before control planes, and nothing only
  -- if there is no such node. What it leaves of the cluster reads as before.
  pub plan-Chosen :
      (if passes_guards
        then Chosen p faults obs.now c
            (workers_of c ++ control_planes_of c)
            (plan fl p c obs faults observable).0
        else (plan fl p c obs faults observable).0 ≡ no_plan)
      × SameView c (plan fl p c obs faults observable).2
  unfolding plan
  plan-Chosen = elim (Bool-cases p.enabled) [
    | inr off ↦ simp off (refl, SameView-refl c)
    | inl on ↦ elim (Bool-cases (fleet_breaker fl p obs)) [
      | inl outage ↦ rw outage (simp on (refl, SameView-refl c))
      | inr calm ↦ elim (Bool-cases (size faults == 0)) [
        | inl sound ↦ rw (calm, sound) (simp on (refl, SameView-refl c))
        | inr faulty ↦ elim (Bool-cases (blast_guard fl p (length c.nodes) (size faults))) [
          | inl wide ↦ rw (calm, faulty, wide) (simp on (refl, SameView-refl c))
          | inr narrow ↦
              rw (calm, faulty, narrow)
                (simp on (
                  plan_nodes-Chosen p faults obs.now c none c (workers_of c ++ control_planes_of c)
                    (SameView-refl c)))
        ]
      ]
    ]
  ]
