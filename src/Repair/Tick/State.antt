-- ===== src/Repair/Tick/State.antt =====
-- What a Ready tick does to each node's repair state.
use kaa_s_demo.Repair.Observe.Faults.{has_vm}
use kaa_s_demo.Prelude.{
  leb, ◌&&◌, ◌+◌, ◌≤◌, true, Option, none, some, List, [], ◌∷◌, Text, text_eq, text_eq_iff, refl,
  ◌≡◌, ◌∙◌, ap, arith, if◌then◌else◌, Bool-cases, Option-cases, inl, inr,
}
use kaa_s_demo.Prelude.Dict.{Dict, get, get-put}
use kaa_s_demo.Go.Time.{Time}
use kaa_s_demo.Go.Float.{Float}
use kaa_s_demo.Domain.Observed.{
  attempted, gave_up, NodeFault, NodeRepairState, ClusterRepair, RepairAction,
}
use kaa_s_demo.Domain.Phase.{Phase}
use kaa_s_demo.Domain.Cluster.{Cluster}
use kaa_s_demo.Repair.{
  RepairPolicy, RepairObservation, RepairPlan, Reason, repair_state, or_no_state, act,
}
use kaa_s_demo.Repair.Observe.{observe_faults}
use kaa_s_demo.Repair.Merge.{merge_faults, merged}
use kaa_s_demo.Repair.Merge.Pointwise.{get-merge_faults, state_lem, get-state, merged_entry}
use kaa_s_demo.Repair.Plan.{plan}
use kaa_s_demo.Repair.Plan.View.{view, SameView}
use kaa_s_demo.Repair.Plan.Choice.{plan-Chosen}
use kaa_s_demo.Repair.Attempt.{record_attempt, attempted_state}
use kaa_s_demo.Repair.Tick.{Event, announced, emit_fault_changes, observed, promoted, decide_repair}

-- a state but for its note, which saying it clears
abbrev core : NodeRepairState → NodeRepairState
core st = record st { note = none }

module _ (F : Type 0) where
  core-announced :
      (at : Time) (vm : Text) (st : NodeRepairState) → core (announced {F = F} at vm st).0 ≡ core st
  unfolding announced
  core-announced at vm st = ground arith

  core-emit :
      (at : Time) (ks : List Text) (nodes : Dict NodeRepairState) (vm : Text)
      → core (or_no_state (get (emit_fault_changes {F = F} at ks nodes).0 vm))
        ≡ core (or_no_state (get nodes vm))
  unfolding emit_fault_changes
  core-emit at [] nodes vm = refl
  core-emit at (k ∷ ks) nodes vm = elim (Option-cases (get nodes k)) [
    | inl e ↦ rw (e, emit_fault_changes) (core-emit at ks nodes vm)
    | inr (st, e) ↦ rw (e, emit_fault_changes) (core-emit at ks _ vm ∙ rw get-put (said st e))
  ]
    where
      said :
          (st : NodeRepairState)
          → get nodes k ≡ some st
          → core (
              or_no_state
                (if text_eq k vm then some (announced {F = F} at k st).0 else get nodes vm))
            ≡ core (or_no_state (get nodes vm))
      said st e = elim (Bool-cases (text_eq k vm)) [
        | inl same ↦ rw (same, ← (text_eq_iff k vm).0 same, e) (core-announced at k st)
        | inr other ↦ rw other refl
      ]

module _ {F : Type 0} where
  -- every count of attempts is within the limit
  abbrev pub Within : RepairPolicy F → Cluster → Type 0
  Within p c = (vm : Text) → (view c vm).attempts ≤ p.max_attempts

  merged_attempts :
      (p : RepairPolicy F) (now : Time) (fault : Option NodeFault) (st : NodeRepairState)
      → (or_no_state (merged p now fault st)).attempts ≤ st.attempts
  unfolding merged
  merged_attempts p now none st = ground arith
  merged_attempts p now (some f) st = ground arith

  -- what the observing half leaves of a VM's state, but for the note
  pub core-observed :
      (p : RepairPolicy F) (c : Cluster) (obs : RepairObservation F) (faults : Dict NodeFault)
      (vm : Text)
      → core (view (observed p c obs faults).0 vm)
        ≡ core (
            or_no_state (
              if has_vm c.nodes vm
              then merged_entry p obs.now faults (repair_state c) vm
              else none))
  unfolding observed view repair_state
  core-observed p c obs faults vm =
      core-emit F obs.now _ _ vm
      ∙ ap (λ (o : Option NodeRepairState). core (or_no_state o))
          (get-merge_faults p obs.now faults (repair_state c) c vm)

  pub attempts-observed :
      (p : RepairPolicy F) (c : Cluster) (obs : RepairObservation F) (faults : Dict NodeFault)
      (vm : Text)
      → (view (observed p c obs faults).0 vm).attempts ≤ (view c vm).attempts
  unfolding view
  attempts-observed p c obs faults vm =
      let e = ap (λ (st : NodeRepairState). st.attempts) (core-observed p c obs faults vm) in
      ground (arith, e, merged_attempts p obs.now (get faults vm) (view c vm))

module _ {F : Type 0} (p : RepairPolicy F) (now : Time) (pl : RepairPlan) where
  -- recording an attempt adds one to its target, and leaves every other state alone
  view-record_attempt :
      (r : ClusterRepair) (vm : Text)
      → or_no_state (get (record_attempt r pl p now).nodes vm) ≡ (
          if text_eq pl.target vm
          then attempted_state pl p now (or_no_state (get r.nodes vm))
          else or_no_state (get r.nodes vm))
  unfolding record_attempt
  view-record_attempt r vm = elim (Bool-cases (text_eq pl.target vm)) [
    | inl same ↦
        rw (get-put, same, state_lem)
          (ap (λ (k : Text). attempted_state pl p now (or_no_state (get r.nodes k)))
            ((text_eq_iff pl.target vm).0 same))
    | inr other ↦ rw (get-put, other, get-state, other) refl
  ]

module _ {F : Type 0} (p : RepairPolicy F) (now : Time) (pl : RepairPlan) where
  pub view-promoted :
      (said : List (Event F)) (why : Reason F) (c : Cluster) (vm : Text)
      → view (promoted p now said pl why c).0 vm ≡ (
          if act pl && text_eq pl.target vm
          then attempted_state pl p now (view c vm)
          else view c vm)
  unfolding promoted
  view-promoted said why c vm = elim (Bool-cases (act pl)) [
    | inl acts ↦
        rw acts (unfold view repair_state in view-record_attempt p now pl (repair_state c) vm)
    | inr rests ↦ rw rests refl
  ]

module _ {F : Type 0} (p : RepairPolicy F) (now : Time) (pl : RepairPlan) where
  module _ (said : List (Event F)) (why : Reason F) (c : Cluster) where
    pub phase-promoted :
        (promoted p now said pl why c).0.phase ≡ (if act pl then Phase.repairing else c.phase)
    unfolding promoted
    phase-promoted = elim (Bool-cases (act pl)) [ inl e ↦ rw e refl | inr e ↦ rw e refl ]

    pub target-promoted :
        (repair_state (promoted p now said pl why c).0).target
        ≡ (if act pl then pl.target else (repair_state c).target)
    unfolding promoted repair_state record_attempt
    target-promoted = elim (Bool-cases (act pl)) [ inl e ↦ rw e refl | inr e ↦ rw e refl ]

    pub action-promoted :
        (repair_state (promoted p now said pl why c).0).action
        ≡ (if act pl then pl.action else (repair_state c).action)
    unfolding promoted repair_state record_attempt
    action-promoted = elim (Bool-cases (act pl)) [ inl e ↦ rw e refl | inr e ↦ rw e refl ]

  attempted_state_lem :
      (st : NodeRepairState)
      → attempted_state pl p now st ≡ record st {
        attempts = st.attempts + 1;
        last_action = pl.action;
        last_action_at = some now;
        suspended = if leb p.max_attempts (st.attempts + 1) then true else st.suspended;
        note =
            if leb p.max_attempts (st.attempts + 1)
            then some (gave_up pl.action pl.target (st.attempts + 1))
            else some (attempted pl.action (st.attempts + 1) p.max_attempts);
      }
  unfolding attempted_state
  attempted_state_lem st = elim (Bool-cases (leb p.max_attempts (st.attempts + 1))) [
    | inl e ↦ rw e refl
    | inr e ↦ rw e refl
  ]

pub act-action : (pl : RepairPlan) → act pl ≡ true → (a : RepairAction) × (pl.action ≡ some a)
unfolding act
act-action pl h = ground arith

pub attempted_attempts :
    {F : Type 0} (pl : RepairPlan) (p : RepairPolicy F) (now : Time) (st : NodeRepairState)
    → (attempted_state pl p now st).attempts ≡ st.attempts + 1
unfolding attempted_state
attempted_attempts pl p now st = ground arith

module _ {F : Type 0} (fl : Float F) (p : RepairPolicy F) (c : Cluster)
    (obs : RepairObservation F) where
  -- the cluster as the tick has observed it, and the plan on it
  abbrev pub faults_now : Dict NodeFault
  faults_now = (observe_faults c obs p).0

  abbrev pub observed_now : Cluster
  observed_now = (observed p c obs faults_now).0

  abbrev pub plan_now : RepairPlan
  plan_now = (plan fl p observed_now obs faults_now (observe_faults c obs p).1).0

  abbrev pub planned_now : Cluster
  planned_now = (plan fl p observed_now obs faults_now (observe_faults c obs p).1).2

  planned-SameView : SameView observed_now planned_now
  planned-SameView = (plan-Chosen fl p observed_now obs faults_now (observe_faults c obs p).1).1

  pub view-decided :
      (vm : Text)
      → view (decide_repair fl p c obs).0 vm ≡ (
          if act plan_now && text_eq plan_now.target vm
          then attempted_state plan_now p obs.now (view observed_now vm)
          else view observed_now vm)
  unfolding decide_repair
  view-decided vm =
      view-promoted p obs.now plan_now _ _ planned_now vm ∙ rw (planned-SameView.views vm) refl

  planned_phase : planned_now.phase ≡ c.phase
  unfolding observed
  planned_phase = ap (λ (k : Cluster). k.phase) planned-SameView.rest

  planned_target : (repair_state planned_now).target ≡ (repair_state c).target
  unfolding observed repair_state merge_faults
  planned_target = planned-SameView.targets

  planned_action : (repair_state planned_now).action ≡ (repair_state c).action
  unfolding observed repair_state merge_faults
  planned_action = planned-SameView.actions

  -- A Ready tick that acts, before anything runs, moves the cluster to Repairing and writes the plan's
  -- target and action down as in flight. It stamps the attempt on the target: the count goes up by
  -- one, the action and the time are written, and the node is suspended once the count has reached the
  -- limit, with a note that says which; the rest of its state, and the state of every other VM, is as
  -- observed. A tick that does not act leaves the phase, the target and the action as they were and
  -- every VM's state as observed.
  pub view-decide_repair :
      (vm : Text)
      → ((decide_repair fl p c obs).0.phase ≡ (if act plan_now then Phase.repairing else c.phase))
        × ((repair_state (decide_repair fl p c obs).0).target
            ≡ (if act plan_now then plan_now.target else (repair_state c).target))
        × ((repair_state (decide_repair fl p c obs).0).action
            ≡ (if act plan_now then plan_now.action else (repair_state c).action))
        × (view (decide_repair fl p c obs).0 vm ≡ (
            if act plan_now && text_eq plan_now.target vm
            then record (view observed_now vm) {
              attempts = (view observed_now vm).attempts + 1;
              last_action = plan_now.action;
              last_action_at = some obs.now;
              suspended =
                  if leb p.max_attempts ((view observed_now vm).attempts + 1)
                  then true
                  else (view observed_now vm).suspended;
              note =
                  if leb p.max_attempts ((view observed_now vm).attempts + 1)
                  then some (
                      gave_up plan_now.action plan_now.target ((view observed_now vm).attempts + 1))
                  else some (
                      attempted plan_now.action
                        ((view observed_now vm).attempts + 1)
                        p.max_attempts);
            }
            else view observed_now vm))
  unfolding decide_repair
  view-decide_repair vm = (
    phase-promoted p obs.now plan_now _ _ planned_now ∙ rw planned_phase refl,
    target-promoted p obs.now plan_now _ _ planned_now ∙ rw planned_target refl,
    action-promoted p obs.now plan_now _ _ planned_now ∙ rw planned_action refl,
    view-decided vm ∙ rw attempted_state_lem refl,
  )
