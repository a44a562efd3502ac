-- ===== src/Etcd/Defrag.antt =====
-- internal/domain/etcd.go: the defragmentation policy. Go's floats are a parameter. A reason is a
-- value that holds what its text formats.
use kaa_s_demo.Domain.Phase.{is_ready}
use kaa_s_demo.Prelude.Any.{any}
use kaa_s_demo.Domain.Cluster.{Cluster}
use kaa_s_demo.Prelude.{
  arith, ◌⊎◌, ◌==◌, ◌↔◌, text_eq, not, ◌||◌, ◌&&◌, codes, ◌≡◌, Text, Bool, Option, if◌then◌else◌,
  none, some, true, false,
}
use kaa_s_demo.Prelude.Int.{◌≤ℤ◌, ℤ, pos, ltb_ℤ, leb_ℤ}
use kaa_s_demo.Go.Float.{Float}
use kaa_s_demo.Go.Int64.{sub64}
use kaa_s_demo.Go.Time.{is_zero, Duration, Time, sub}
use kaa_s_demo.Domain.Observed.{EtcdStatus}
use kaa_s_demo.Maintenance.{MaintenanceWindow, LocalTime, allows}

-- EtcdDefaultQuotaBytes, 2 GiB
abbrev pub default_quota_bytes : ℤ
default_quota_bytes = pos 2147483648

abbrev pub alarm_no_space : Text
alarm_no_space = codes "NOSPACE"

unfoldable pub effective_quota_bytes : EtcdStatus → ℤ
effective_quota_bytes s = if ltb_ℤ (pos 0) s.quota_bytes then s.quota_bytes else default_quota_bytes

unfoldable pub has_alarm : EtcdStatus → Text → Bool
has_alarm s name = any (λ a. text_eq a name) s.alarms

module _ {F : Type 0} (fl : Float F) where
  unfoldable pub fragmentation_ratio : EtcdStatus → F
  fragmentation_ratio s =
      if leb_ℤ s.db_bytes (pos 0) || leb_ℤ s.db_bytes s.db_in_use_bytes
      then fl.of_int (pos 0)
      else fl.quot (fl.of_int (sub64 s.db_bytes s.db_in_use_bytes)) (fl.of_int s.db_bytes)

  unfoldable pub quota_usage : EtcdStatus → F
  quota_usage s = fl.quot (fl.of_int s.db_bytes) (fl.of_int (effective_quota_bytes s))

pub record EtcdDefragPolicy (F : Type 0) : Type 0 where
  pub enabled : Bool
  pub observe_interval : Duration
  pub min_ratio : F
  pub min_bytes : ℤ
  pub min_interval : Duration
  pub window : MaintenanceWindow

pub data DefragReason (F : Type 0) : Type 0 where
  maintenance_disabled not_observed nospace : DefragReason F
  members_unreachable : ℤ → ℤ → DefragReason F
  below_floor : ℤ → ℤ → DefragReason F
  below_ratio : F → F → DefragReason F
  too_soon : Duration → Duration → DefragReason F
  outside_window : F → MaintenanceWindow → DefragReason F
  fragmented : F → ℤ → ℤ → DefragReason F

-- s.DefraggedAt != nil && now.Sub(*s.DefraggedAt) < p.MinInterval
unfoldable pub defragged_recently : EtcdStatus → Duration → Time → Bool
defragged_recently s min_interval now = elim s.defragged_at [
  | none ↦ false
  | some t ↦ ltb_ℤ (sub now t) min_interval
]

abbrev since_defrag : EtcdStatus → Time → Duration
since_defrag s now = elim s.defragged_at [ none ↦ pos 0 | some t ↦ sub now t ]

module _ {F : Type 0} (fl : Float F) (local : Text → Time → LocalTime) where
  -- the checks of an etcd without an alarm
  unfoldable pub worth_defrag : EtcdDefragPolicy F → EtcdStatus → Time → Bool × DefragReason F
  worth_defrag p s now =
      if ltb_ℤ s.db_bytes p.min_bytes
      then (false, below_floor s.db_bytes p.min_bytes)
      else if fl.exceeds p.min_ratio (fragmentation_ratio fl s)
      then (false, below_ratio (fragmentation_ratio fl s) p.min_ratio)
      else if defragged_recently s p.min_interval now
      then (false, too_soon (since_defrag s now) p.min_interval)
      else if not (allows local p.window now)
      then (false, outside_window (fragmentation_ratio fl s) p.window)
      else (
        true,
        fragmented (fragmentation_ratio fl s) (sub64 s.db_bytes s.db_in_use_bytes) s.db_bytes,
      )

  unfoldable pub defrag_due : EtcdDefragPolicy F → EtcdStatus → ℤ → Time → Bool × DefragReason F
  defrag_due p s members now =
      if not p.enabled
      then (false, maintenance_disabled)
      else if is_zero s.observed_at
      then (false, not_observed)
      else if ltb_ℤ s.members members
      then (false, members_unreachable s.members members)
      else if has_alarm s alarm_no_space
      then (true, nospace)
      else worth_defrag p s now

unfoldable pub observation_due : {F : Type 0} → EtcdDefragPolicy F → Option EtcdStatus → Time → Bool
observation_due p s now = p.enabled && elim s [
  | none ↦ true
  | some t ↦ is_zero t.observed_at || leb_ℤ p.observe_interval (sub now t.observed_at)
]

-- Cluster.EtcdMaintenanceDue
unfoldable pub etcd_maintenance_due : {F : Type 0} → Cluster → EtcdDefragPolicy F → Time → Bool
etcd_maintenance_due c p now =
    if not (is_ready c.phase) || not (c.observed_generation == c.generation)
    then false
    else observation_due p c.etcd now

-- The policy defragments exactly when it is enabled, the status was observed, every member answers,
-- and the cluster is out of space, or its store is large and fragmented enough, was not defragmented
-- recently, and the maintenance window is open.
pub defrag_due_iff :
    {F : Type 0} (fl : Float F) (local : Text → Time → LocalTime) (p : EtcdDefragPolicy F)
    (s : EtcdStatus) (members : ℤ) (now : Time)
    → ((defrag_due fl local p s members now).0 ≡ true) ↔ (
        (p.enabled ≡ true)
        × (is_zero s.observed_at ≡ false)
        × (members ≤ℤ s.members)
        × ((has_alarm s alarm_no_space ≡ true)
            ⊎ ((p.min_bytes ≤ℤ s.db_bytes)
                × (fl.exceeds p.min_ratio (fragmentation_ratio fl s) ≡ false)
                × (defragged_recently s p.min_interval now ≡ false)
                × (allows local p.window now ≡ true))))
unfolding defrag_due worth_defrag
defrag_due_iff fl local p s members now = (λ h. ground arith, λ h. ground arith)
