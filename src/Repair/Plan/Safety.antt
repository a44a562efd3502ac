-- ===== src/Repair/Plan/Safety.antt =====
-- What holds of every repair that Plan announces.
use kaa_s_demo.Prelude.{Bool, false, some, List, ◌∷◌, ◌++◌, refl, ◌≡◌, Bool-cases, inl, inr}
use kaa_s_demo.Prelude.Dict.{Dict, get}
use kaa_s_demo.Go.Time.{Time}
use kaa_s_demo.Go.Float.{Float}
use kaa_s_demo.Domain.Node.{Node}
use kaa_s_demo.Domain.Observed.{NodeFault, RepairAction}
use kaa_s_demo.Domain.Cluster.{Cluster, workers_of, control_planes_of}
use kaa_s_demo.Repair.{RepairPolicy, RepairObservation, RepairPlan}
use kaa_s_demo.Repair.Observe.{observe_faults}
use kaa_s_demo.Repair.Observe.Faults.{unobservable_faults}
use kaa_s_demo.Repair.Plan.{plan}
use kaa_s_demo.Repair.Plan.Choice.{
  Chosen, none_due, healthy, not_due, due, action_for, plan-Chosen, passes_guards,
}

module _ {F : Type 0} (p : RepairPolicy F) (faults : Dict NodeFault) (now : Time)
    (c : Cluster) where
  -- a node whose fault the plan repairs, with the action that the policy has for it
  pub record Repairs (pl : RepairPlan) : Type 0 where
    pub node : Node
    pub fault : NodeFault
    pub action : RepairAction
    pub target_lem : pl.target ≡ node.vm_name
    pub action_lem : pl.action ≡ some action
    pub found : get faults pl.target ≡ some fault
    pub taken : action_for p faults now c node fault ≡ some action

  pub Chosen-Repairs :
      (ns : List Node) (pl : RepairPlan) {a : RepairAction}
      → Chosen p faults now c ns pl
      → pl.action ≡ some a
      → Repairs pl
  Chosen-Repairs ns pl none_due e = absurd (cc)
  Chosen-Repairs (n ∷ ns) pl (healthy h rest) e = Chosen-Repairs ns pl rest e
  Chosen-Repairs (n ∷ ns) pl (not_due f h l rest) e = Chosen-Repairs ns pl rest e
  Chosen-Repairs (n ∷ ns) pl (due f a h t) e = record {
    node = n;
    fault = f;
    action = a;
    target_lem = refl;
    action_lem = refl;
    found = h;
    taken = t;
  }

module _ {F : Type 0} (fl : Float F) (p : RepairPolicy F) (c : Cluster)
    (obs : RepairObservation F) where
  pub plan-Repairs :
      (faults : Dict NodeFault) (observable : Bool) {a : RepairAction}
      → (plan fl p c obs faults observable).0.action ≡ some a
      → Repairs p faults obs.now c (plan fl p c obs faults observable).0
  plan-Repairs faults observable e =
      elim (Bool-cases (passes_guards fl p c obs faults observable)) [
        | inl pass ↦
            Chosen-Repairs p faults obs.now c (workers_of c ++ control_planes_of c) _
              (rw pass at ((plan-Chosen fl p c obs faults observable).0)) e
        | inr stop ↦ absurd (cc (rw stop at ((plan-Chosen fl p c obs faults observable).0)))
      ]

module _ {F : Type 0} (fl : Float F) (p : RepairPolicy F) (c c' : Cluster)
    (obs : RepairObservation F) where
  -- While the cluster `c` is not observable (its API server is unreachable, its health snapshot is
  -- missing or too old), a repair is planned from its faults only for a VM that the infrastructure
  -- itself reports as not running, whatever the durable repair state `c'` then has.
  pub plan_blind :
      {a : RepairAction}
      → (observe_faults c obs p).1 ≡ false
      → (plan fl p c' obs (observe_faults c obs p).0 (observe_faults c obs p).1).0.action ≡ some a
      → get obs.powered
          (plan fl p c' obs (observe_faults c obs p).0 (observe_faults c obs p).1).0.target
        ≡ some false
  plan_blind blind e =
      let r = plan-Repairs fl p c' obs (observe_faults c obs p).0 (observe_faults c obs p).1 e in
      (unobservable_faults c obs p _ r.fault blind r.found).2
