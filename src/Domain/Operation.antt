-- ===== src/Domain/Operation.antt =====
-- internal/domain/domain.go: the history of a cluster's operations, and its metrics.
use kaa_s_demo.Prelude.{ℕ, Bool, true, false, Option, List, [], ◌∷◌, Text}
use kaa_s_demo.Prelude.Int.{ℤ}
use kaa_s_demo.Go.Time.{Time}

pub data OperationKind : Type 0 where
  create scale addons upgrade disks ssh : OperationKind
  repair restore snapshot cert_renewal defrag : OperationKind

unfoldable pub sweep_exempt : OperationKind → Bool
sweep_exempt create = false
sweep_exempt scale = false
sweep_exempt addons = false
sweep_exempt upgrade = false
sweep_exempt disks = false
sweep_exempt ssh = true
sweep_exempt repair = true
sweep_exempt restore = true
sweep_exempt snapshot = true
sweep_exempt cert_renewal = true
sweep_exempt defrag = true

unfoldable pub sweep_exempt_kinds : List OperationKind
sweep_exempt_kinds = ssh ∷ repair ∷ restore ∷ snapshot ∷ cert_renewal ∷ defrag ∷ []

pub data OperationStatus : Type 0 where
  in_progress completed : OperationStatus

-- s == OpInProgress
abbrev pub is_in_progress : OperationStatus → Bool
is_in_progress in_progress = true
is_in_progress completed = false

pub record Operation : Type 0 where
  pub id : Text
  pub cluster_id : Text
  pub kind : OperationKind
  pub summary : Text
  pub detail : Text
  pub generation : ℕ
  pub status : OperationStatus
  pub actor_id : Text
  pub actor_username : Text
  pub started_at : Time
  pub finished_at : Option Time

pub record NodeMetrics : Type 0 where
  pub node_name : Text
  pub cpu_used_milli : ℤ
  pub cpu_capacity_milli : ℤ
  pub mem_used_bytes : ℤ
  pub mem_capacity_bytes : ℤ

pub record MetricsSnapshot : Type 0 where
  pub cluster_id : Text
  pub collected_at : Time
  pub nodes : List NodeMetrics
