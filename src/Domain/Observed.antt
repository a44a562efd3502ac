-- ===== src/Domain/Observed.antt =====
-- What the platform has observed of a cluster and carries on its row: the state of its etcd store
-- (internal/domain/etcd.go) and of its repairs (internal/domain/repair.go). A nil pointer is `none`.
use kaa_s_demo.Prelude.{ℕ, Bool, false, Option, none, List, Text}
use kaa_s_demo.Prelude.Int.{ℤ}
use kaa_s_demo.Prelude.Dict.{Dict}
use kaa_s_demo.Go.Time.{Time, Duration}

pub record EtcdStatus : Type 0 where
  pub db_bytes : ℤ
  pub db_in_use_bytes : ℤ
  pub quota_bytes : ℤ
  pub alarms : List Text
  pub members : ℤ
  pub observed_at : Time
  pub defragged_at : Option Time

pub data NodeFault : Type 0 where
  not_ready missing vm_down : NodeFault

pub data RepairAction : Type 0 where
  power_on rejoin restart_kubelet replace restore : RepairAction

-- The notes that the platform writes on a node's state; the texts are `fmt.Sprintf` of these.
pub data Note : Type 0 where
  recovered : ℕ → Note
  re_failed : Duration → Note
  attempted : Option RepairAction → ℕ → ℕ → Note
  gave_up : Option RepairAction → Text → ℕ → Note

-- An empty fault, action or note is `none`.
pub record NodeRepairState : Type 0 where
  pub fault : Option NodeFault
  pub unhealthy_since : Option Time
  pub attempts : ℕ
  pub last_action : Option RepairAction
  pub last_action_at : Option Time
  pub repaired_at : Option Time
  pub suspended : Bool
  pub note : Option Note

-- NodeRepairState{}
abbrev pub no_state : NodeRepairState
no_state = record {
  fault = none;
  unhealthy_since = none;
  attempts = 0;
  last_action = none;
  last_action_at = none;
  repaired_at = none;
  suspended = false;
  note = none;
}

pub record ClusterRepair : Type 0 where
  pub nodes : Dict NodeRepairState
  pub target : Text
  pub action : Option RepairAction
  pub observed_at : Time
