-- ===== src/Repair/Tick/Budget.antt =====
-- The attempts on a node, over any number of Ready ticks.
use kaa_s_demo.Repair.Tick.State.{
  faults_now, attempts-observed, act-action, attempted_attempts, view-decided, observed_now, Within,
  plan_now,
}
use kaa_s_demo.Prelude.{
  and_true, ◌&&◌, ◌<◌, true, Option, none, some, Text, text_eq, text_eq_iff, refl, ◌≡◌, ◌∙◌, ap,
  arith, Bool-cases, inl, inr,
}
use kaa_s_demo.Prelude.Dict.{get-empty, get}
use kaa_s_demo.Go.Float.{Float}
use kaa_s_demo.Domain.Observed.{ClusterRepair}
use kaa_s_demo.Domain.Cluster.{Cluster}
use kaa_s_demo.Repair.{
  or_no_repair, RepairPolicy, RepairObservation, repair_state, or_no_state, act,
}
use kaa_s_demo.Repair.Observe.{observe_faults}
use kaa_s_demo.Repair.Plan.View.{view}
use kaa_s_demo.Repair.Plan.Safety.{plan-Repairs}
use kaa_s_demo.Repair.Action.Ladder.{next_action_iff}
use kaa_s_demo.Repair.Attempt.{complete_attempt}
use kaa_s_demo.Repair.Tick.{decide_repair}

module _ {F : Type 0} (fl : Float F) (p : RepairPolicy F) (c : Cluster)
    (obs : RepairObservation F) where
  -- the target of an acting tick has an attempt left
  attempts-target :
      act (plan_now fl p c obs) ≡ true
      → (view (observed_now fl p c obs) (plan_now fl p c obs).target).attempts < p.max_attempts
  attempts-target acts =
      let (a, e) = act-action (plan_now fl p c obs) acts in
      let r =
        plan-Repairs fl p (observed_now fl p c obs) obs (faults_now fl p c obs)
          (observe_faults c obs p).1 e in
      let due =
        ((next_action_iff p (observed_now fl p c obs) r.node _ r.fault obs.now r.action).0
          r.taken).0 in
      rw r.target_lem due.attempts_left

  -- No tick takes the attempts on a node past the limit, whatever is observed.
  pub attempts-decide_repair : Within p c → Within p (decide_repair fl p c obs).0
  attempts-decide_repair h vm =
      elim (Bool-cases (act (plan_now fl p c obs) && text_eq (plan_now fl p c obs).target vm)) [
        | inl hit ↦
            let (acts, same) =
              and_true (act (plan_now fl p c obs)) (text_eq (plan_now fl p c obs).target vm) hit in
            rw (view-decided fl p c obs vm, hit)
              (omega (
                arith,
                attempted_attempts (plan_now fl p c obs) p obs.now
                    (view (observed_now fl p c obs) vm),
                attempts-target acts,
                ap (λ (k : Text). (view (observed_now fl p c obs) k).attempts)
                    ((text_eq_iff (plan_now fl p c obs).target vm).0 same),
              ))
        | inr miss ↦
            rw (view-decided fl p c obs vm, miss)
              (omega (arith, attempts-observed p c obs (faults_now fl p c obs) vm, h vm))
      ]

-- A cluster after a history of Ready ticks, each with what it observed; between them the phase,
-- the nodes and all else but the repair state may be changed by the rest of the control plane.
pub data Ticks {F : Type 0} (fl : Float F) (p : RepairPolicy F) : Cluster → Type 0 where
  fresh : {c : Cluster} → c.repair ≡ none → Ticks fl p c
  tick :
      {c : Cluster}
      → Ticks fl p c
      → (obs : RepairObservation F) → Ticks fl p (decide_repair fl p c obs).0
  elsewhere : {c c' : Cluster} → Ticks fl p c → c'.repair ≡ c.repair → Ticks fl p c'
  executed :
      {c c' : Cluster}
      → Ticks fl p c
      → c'.repair ≡ some (complete_attempt (repair_state c))
      → Ticks fl p c'

view-none : (c : Cluster) (vm : Text) → c.repair ≡ none → (view c vm).attempts ≡ 0
unfolding view repair_state
view-none c vm e =
    ap (λ (o : Option ClusterRepair). (or_no_state (get (or_no_repair o).nodes vm)).attempts) e
    ∙ rw get-empty refl

view-repair : (c c' : Cluster) (vm : Text) → c'.repair ≡ c.repair → view c' vm ≡ view c vm
unfolding view repair_state
view-repair c c' vm e =
    ap (λ (o : Option ClusterRepair). or_no_state (get (or_no_repair o).nodes vm)) e

view-executed :
    (c c' : Cluster) (vm : Text)
    → c'.repair ≡ some (complete_attempt (repair_state c))
    → view c' vm ≡ view c vm
unfolding view repair_state complete_attempt
view-executed c c' vm e =
    ap (λ (o : Option ClusterRepair). or_no_state (get (or_no_repair o).nodes vm)) e

-- Whatever is observed at the ticks, and whatever else happens between them, no node's count of
-- repair attempts ever passes the policy's limit.
pub attempts-Ticks :
    {F : Type 0} (fl : Float F) (p : RepairPolicy F) (c : Cluster) → Ticks fl p c → Within p c
attempts-Ticks fl p c (fresh e) vm = omega (arith, view-none c vm e)
attempts-Ticks fl p c' (tick {c = c} h obs) vm =
    attempts-decide_repair fl p c obs (attempts-Ticks fl p c h) vm
attempts-Ticks fl p c' (elsewhere {c = c} h e) vm =
    rw (view-repair c c' vm e) (attempts-Ticks fl p c h vm)
attempts-Ticks fl p c' (executed {c = c} h e) vm =
    rw (view-executed c c' vm e) (attempts-Ticks fl p c h vm)
