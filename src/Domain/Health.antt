-- ===== src/Domain/Health.antt =====
-- internal/domain/domain.go: health checks, snapshots, and the status that a list of checks rolls
-- up to.
use kaa_s_demo.Prelude.{ℕ, Bool, true, false, List, [], ◌∷◌, ltb, ◌||◌, if◌then◌else◌, Text}
use kaa_s_demo.Go.Time.{Time}

pub data HealthStatus : Type 0 where
  unknown healthy degraded unhealthy : HealthStatus

abbrev pub is_unknown : HealthStatus → Bool
is_unknown unknown = true
is_unknown _ = false

abbrev pub is_unhealthy : HealthStatus → Bool
is_unhealthy unhealthy = true
is_unhealthy _ = false

pub record HealthCheck : Type 0 where
  pub id : Text
  pub name : Text
  pub status : HealthStatus
  pub summary : Text

pub record NodeHealth : Type 0 where
  pub node_name : Text
  pub ready : Bool
  pub cordoned : Bool
  pub pressures : List Text

pub record HealthSnapshot : Type 0 where
  pub cluster_id : Text
  pub status : HealthStatus
  pub checks : List HealthCheck
  pub nodes : List NodeHealth
  pub collected_at : Time

-- healthRank; a status that is not a key of the map reads 0
abbrev pub health_rank : HealthStatus → ℕ
health_rank unknown = 0
health_rank healthy = 1
health_rank degraded = 2
health_rank unhealthy = 3

-- the loop of RollupHealth, from the worst status so far
pub rollup_from : HealthStatus → List HealthCheck → HealthStatus
rollup_from worst [] = worst
rollup_from worst (c ∷ cs) =
    rollup_from
      (if is_unknown c.status
        then worst
        else if is_unknown worst || ltb (health_rank worst) (health_rank c.status)
        then c.status
        else worst)
      cs

pub rollup_health : List HealthCheck → HealthStatus
unfolding rollup_from
rollup_health checks = rollup_from unknown checks
