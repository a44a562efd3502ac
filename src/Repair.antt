-- ===== src/Repair.antt =====
-- internal/domain/repair.go: automatic node repair. The policy, what it looks at, and what it
-- decides. Thresholds on shares are Go floats, whose operations are a parameter (Go/Float).
pub mod Observe
pub mod Merge
pub mod Action
pub mod Plan
pub mod Attempt
pub mod Tick
use kaa_s_demo.Prelude.{ℕ, Bool, true, false, not, ◌&&◌, Option, none, some, [], Text, text_eq}
use kaa_s_demo.Prelude.Int.{ℤ, leb_ℤ}
use kaa_s_demo.Prelude.Dict.{Dict, empty, get, put}
use kaa_s_demo.Prelude.Keys.{is_some}
use kaa_s_demo.Prelude.{if◌then◌else◌}
use kaa_s_demo.Go.Time.{Time, Duration, is_zero, sub}
use kaa_s_demo.Domain.Health.{HealthSnapshot}
use kaa_s_demo.Domain.Observed.{NodeFault, RepairAction, NodeRepairState, no_state, ClusterRepair}
use kaa_s_demo.Domain.Cluster.{Cluster, is_converged}

-- `attempts >= MaxAttempts` is the only use of the limit, so a limit below 0 is 0.
pub record RepairPolicy (F : Type 0) : Type 0 where
  pub enabled : Bool
  pub replace : Bool
  pub restore : Bool
  pub observe_interval : Duration
  pub health_max_age : Duration
  pub not_ready_grace : Duration
  pub node_startup_grace : Duration
  pub replace_after : Duration
  pub max_unhealthy_fraction : F
  pub max_unhealthy_clusters : F
  pub max_attempts : ℕ
  pub backoff : Duration

pub record RepairObservation (F : Type 0) : Type 0 where
  pub health : Option HealthSnapshot
  pub powered : Dict Bool
  pub fleet_unhealthy : F
  pub fleet_unhealthy_n : ℕ
  pub now : Time

-- An empty action or fault is `none`.
pub record RepairPlan : Type 0 where
  pub target : Text
  pub action : Option RepairAction
  pub fault : Option NodeFault

-- RepairPlan{}
abbrev pub no_plan : RepairPlan
no_plan = record { target = []; action = none; fault = none }

unfoldable pub act : RepairPlan → Bool
act p = not (text_eq p.target []) && is_some p.action

-- Why the policy acts, or does not: the texts are `fmt.Sprintf` of these.
pub data Reason (F : Type 0) : Type 0 where
  disabled not_observable all_healthy no_actionable_fault : Reason F
  fleet_wide : ℕ → F → F → ℕ → Reason F
  cluster_wide : ℕ → ℕ → F → Reason F
  suspended exhausted : ℕ → Reason F
  backing_off : Duration → Option RepairAction → Reason F
  not_timestamped powering_on : Reason F
  startup_grace ready_grace : Duration → Duration → Reason F
  rejoining restarting rebuilding restoring rebuilding_plane : Duration → Reason F
  waiting : Option RepairAction → Duration → Duration → Reason F
  replace_disabled restore_disabled : Reason F
  members_unreachable : ℤ → ℤ → Reason F
  planes_faulty : ℕ → ℤ → Reason F
  -- "<vm>: <why>" of a node that is left alone, and "<vm> is <fault> - <why>" of the one repaired
  left_alone : Text → Reason F → Reason F
  repairing : Text → NodeFault → Reason F → Reason F

abbrev pub no_repair : ClusterRepair
no_repair = record { nodes = empty; target = []; action = none; observed_at = 0 }

abbrev pub or_no_repair : Option ClusterRepair → ClusterRepair
or_no_repair none = no_repair
or_no_repair (some r) = r

-- (*Cluster).RepairState: the cluster's repair state, created if there is none
unfoldable pub repair_state : Cluster → ClusterRepair
repair_state c = or_no_repair c.repair

abbrev pub or_no_state : Option NodeRepairState → NodeRepairState
or_no_state none = no_state
or_no_state (some s) = s

-- (*ClusterRepair).State: the entry of a VM, created if there is none
unfoldable pub state : Dict NodeRepairState → Text → Dict NodeRepairState × NodeRepairState
state nodes vm = elim (get nodes vm) [
  | none ↦ (put nodes vm no_state, no_state)
  | some s ↦ (nodes, s)
]

unfoldable pub in_flight : ClusterRepair → Bool
in_flight r = not (text_eq r.target []) && is_some r.action

module _ {F : Type 0} where
  is_stale : RepairPolicy F → ClusterRepair → Time → Bool
  is_stale p r now =
      if is_zero r.observed_at then true else leb_ℤ p.observe_interval (sub now r.observed_at)

  unfoldable pub repair_observation_due : RepairPolicy F → Option ClusterRepair → Time → Bool
  unfolding is_stale
  repair_observation_due p r now =
      if not p.enabled then false else elim r [ none ↦ true | some r' ↦ is_stale p r' now ]

  unfoldable pub repair_due : Cluster → RepairPolicy F → Time → Bool
  unfolding repair_observation_due
  repair_due c p now = if not (is_converged c) then false else repair_observation_due p c.repair now
