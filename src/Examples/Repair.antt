-- ===== src/Examples/Repair.antt =====
-- Automatic repair: the theorems at concrete inputs, and tests of the definitions.
use kaa_s_demo.Prelude.Keys.{for_keys}
use kaa_s_demo.Go.Int64.{mul64}
use kaa_s_demo.Repair.Attempt.{record_attempt}
use kaa_s_demo.Go.Time.{sub, Time}
use kaa_s_demo.Domain.Phase.{worker, Phase}
use kaa_s_demo.Prelude.Any.{any}
use kaa_s_demo.Domain.Cluster.{control_planes_of, workers_of, Cluster}
use kaa_s_demo.Prelude.{
  leb, ◌+◌, ◌↔◌, [], ◌∷◌, true, false, none, some, refl, ◌≡◌, arith, text_eq, ◌++◌, if◌then◌else◌,
  ◌&&◌,
}
use kaa_s_demo.Prelude.Int.{pos}
use kaa_s_demo.Prelude.Dict.{size, remove, Dict, get, empty, put, keys}
use kaa_s_demo.Go.Float.{fractions}
use kaa_s_demo.Domain.Observed.{
  attempted, gave_up, replace, NodeFault, ClusterRepair, NodeRepairState, vm_down, not_ready,
  power_on,
}
use kaa_s_demo.Repair.Observe.{observe_faults}
use kaa_s_demo.Repair.Observe.Faults.{
  get-observe_faults, unobservable_faults, or_else, infra_fault, cluster_fault, has_vm,
}
use kaa_s_demo.Repair.{RepairPlan, no_plan, or_no_state, act, repair_state}
use kaa_s_demo.Repair.Merge.{flap_window, merge_faults}
use kaa_s_demo.Repair.Merge.Pointwise.{get-merge_faults, merged_entry}
use kaa_s_demo.Repair.Merge.Episodes.{Look, merge_all, flapping_escalates, suspended_resumes}
use kaa_s_demo.Repair.Action.{backoff_for, next_action}
use kaa_s_demo.Repair.Action.Backoff.{backoff_for_lem}
use kaa_s_demo.Repair.Action.Ladder.{next_action_iff, IsDue, Allowed}
use kaa_s_demo.Repair.Plan.{node_state, blast_guard, fleet_breaker, plan_nodes, plan}
use kaa_s_demo.Repair.Plan.View.{view, SameView}
use kaa_s_demo.Repair.Plan.Choice.{plan-Chosen, Chosen, passes_guards}
use kaa_s_demo.Repair.Plan.Safety.{plan_blind}
use kaa_s_demo.Repair.Tick.{emit_fault_changes, promoted, observed, decide_repair}
use kaa_s_demo.Repair.Tick.State.{view-decide_repair, observed_now, plan_now, Within}
use kaa_s_demo.Repair.Tick.Budget.{fresh, tick, attempts-Ticks}
use kaa_s_demo.Examples.Samples.{
  node, cluster, policy, blind, at, w_0, down_w_0, unready_w_0, unready_state,
}

blind_faults : observe_faults cluster blind policy ≡ (down_w_0, false)
unfolding observe_faults get put empty text_eq
blind_faults = refl

get-observe_faults_example :
    get (observe_faults cluster blind policy).0 w_0
    ≡ or_else (infra_fault blind.powered cluster.nodes w_0) (
        if (observe_faults cluster blind policy).1
        then cluster_fault cluster.nodes blind.health w_0
        else none)
get-observe_faults_example = get-observe_faults cluster blind policy w_0

blind_unobservable : (observe_faults cluster blind policy).1 ≡ false
unfolding observe_faults get put empty text_eq
blind_unobservable = refl

unobservable_faults_example :
    (vm_down ≡ vm_down) × (has_vm cluster.nodes w_0 ≡ true) × (get blind.powered w_0 ≡ some false)
unfolding observe_faults get put empty text_eq
unobservable_faults_example =
    unobservable_faults cluster blind policy w_0 vm_down blind_unobservable refl

-- the cluster once the tick has seen the fault
abbrev seen : Cluster
seen = record cluster {
  repair = some (merge_faults (repair_state cluster) cluster down_w_0 policy at);
}

blind-plan :
    (plan fractions policy seen blind
      (observe_faults cluster blind policy).0
      (observe_faults cluster blind policy).1).0.action
    ≡ some power_on
unfolding plan plan_nodes fleet_breaker blast_guard next_action node_state observe_faults
    merge_faults get put remove empty keys size for_keys text_eq workers_of control_planes_of
    repair_state
blind-plan = refl

plan_blind_example :
    get blind.powered
      (plan fractions policy seen blind
        (observe_faults cluster blind policy).0
        (observe_faults cluster blind policy).1).0.target
    ≡ some false
plan_blind_example = plan_blind fractions policy cluster seen blind blind_unobservable blind-plan

get-merge_faults_example :
    get (merge_faults unready_w_0 cluster down_w_0 policy at).nodes w_0
    ≡ (if has_vm cluster.nodes w_0 then merged_entry policy at down_w_0 unready_w_0 w_0 else none)
get-merge_faults_example = get-merge_faults policy at down_w_0 unready_w_0 cluster w_0

-- the same node, still NotReady
abbrev unready_faults : Dict NodeFault
unready_faults = record { entries = (w_0, not_ready) ∷ [] }

-- a tick at `t` that sees no fault
abbrev calm : Time → Look
calm t = record { cluster = cluster; at = t; faults = empty }

flapping_escalates_example :
    (or_no_state (
      get
        (merge_all policy unready_w_0 (
          calm 100
          ∷ calm 120
          ∷ calm 150
          ∷ record { cluster = cluster; at = 200; faults = down_w_0 }
          ∷ [])).nodes
        w_0)).attempts
    ≡ 2
unfolding get text_eq empty any flap_window sub mul64
flapping_escalates_example =
    flapping_escalates policy w_0 unready_w_0 (calm 100)
      (record { cluster = cluster; at = 200; faults = down_w_0 }) (calm 120 ∷ calm 150 ∷ [])
      not_ready vm_down unready_state refl refl refl refl
      ((refl, refl, omega arith), ((refl, refl, omega arith), tt)) refl refl (omega arith)

-- a suspended node
abbrev suspended_state : NodeRepairState
suspended_state = record unready_state { attempts = 4; suspended = true }

abbrev suspended_w_0 : ClusterRepair
suspended_w_0 = record unready_w_0 { nodes = record { entries = (w_0, suspended_state) ∷ [] } }

suspended_resumes_example :
    (next_action policy cluster
      (node worker w_0)
      (or_no_state (get (merge_faults suspended_w_0 cluster down_w_0 policy at).nodes w_0))
      vm_down
      at).0
    ≡ some power_on
unfolding get text_eq any
suspended_resumes_example =
    suspended_resumes policy cluster w_0 suspended_w_0 at down_w_0 not_ready suspended_state
      (node worker w_0) refl refl refl refl refl (λ e. cc) refl (omega arith)

backoff_for_lem_example : backoff_for policy 3 ≡ pos 1200000000000
backoff_for_lem_example = backoff_for_lem policy 300000000000 2 refl (omega arith)

next_action_iff_example :
    ((next_action policy cluster (node worker w_0) unready_state not_ready at).0 ≡ some replace) ↔ (
      (due : IsDue policy cluster (node worker w_0) unready_state at) × Allowed policy cluster
        (node worker w_0)
        unready_state
        not_ready
        (sub at due.since)
        replace)
next_action_iff_example =
    next_action_iff policy cluster (node worker w_0) unready_state not_ready at replace

plan-Chosen_example :
    (if passes_guards fractions policy seen blind down_w_0 false
      then Chosen policy down_w_0 at seen
          (workers_of seen ++ control_planes_of seen)
          (plan fractions policy seen blind down_w_0 false).0
      else (plan fractions policy seen blind down_w_0 false).0 ≡ no_plan)
    × SameView seen (plan fractions policy seen blind down_w_0 false).2
plan-Chosen_example = plan-Chosen fractions policy seen blind down_w_0 false

-- the plan of the tick that finds the VM down, what it has observed, and the cluster it leaves
abbrev plan_1 : RepairPlan
plan_1 = plan_now fractions policy cluster blind

abbrev seen_1 : NodeRepairState
seen_1 = view (observed_now fractions policy cluster blind) w_0

abbrev left_1 : Cluster
left_1 = (decide_repair fractions policy cluster blind).0

view-decide_repair_example :
    (left_1.phase ≡ (if act plan_1 then Phase.repairing else cluster.phase))
    × ((repair_state left_1).target
        ≡ (if act plan_1 then plan_1.target else (repair_state cluster).target))
    × ((repair_state left_1).action
        ≡ (if act plan_1 then plan_1.action else (repair_state cluster).action))
    × (view left_1 w_0 ≡ (
        if act plan_1 && text_eq plan_1.target w_0
        then record seen_1 {
          attempts = seen_1.attempts + 1;
          last_action = plan_1.action;
          last_action_at = some at;
          suspended =
              if leb policy.max_attempts (seen_1.attempts + 1) then true else seen_1.suspended;
          note =
              if leb policy.max_attempts (seen_1.attempts + 1)
              then some (gave_up plan_1.action plan_1.target (seen_1.attempts + 1))
              else some (attempted plan_1.action (seen_1.attempts + 1) policy.max_attempts);
        }
        else seen_1))
view-decide_repair_example = view-decide_repair fractions policy cluster blind w_0

attempts-Ticks_example : Within policy (decide_repair fractions policy cluster blind).0
attempts-Ticks_example =
    attempts-Ticks fractions policy (decide_repair fractions policy cluster blind).0
      (tick (fresh refl) blind)

-- the first tick that sees the VM down powers it on
powered_on : (repair_state (decide_repair fractions policy cluster blind).0).action ≡ some power_on
unfolding decide_repair observed promoted emit_fault_changes record_attempt plan plan_nodes
    fleet_breaker blast_guard next_action node_state observe_faults merge_faults get put remove
    empty keys size for_keys text_eq workers_of control_planes_of repair_state act
powered_on = refl
