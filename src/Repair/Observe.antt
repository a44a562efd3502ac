-- ===== src/Repair/Observe.antt =====
-- internal/domain/repair.go: ObserveFaults, from three passes over the nodes and the snapshot.
pub mod Faults
use kaa_s_demo.Prelude.{
  Bool, true, false, not, ◌&&◌, ◌||◌, Option, none, some, List, [], ◌∷◌, Text, codes, text_eq,
  if◌then◌else◌,
}
use kaa_s_demo.Prelude.Int.{leb_ℤ}
use kaa_s_demo.Prelude.Dict.{Dict, empty, get, put}
use kaa_s_demo.Prelude.Keys.{is_some}
use kaa_s_demo.Go.Time.{Time, sub}
use kaa_s_demo.Domain.Node.{Node}
use kaa_s_demo.Domain.Health.{HealthCheck, NodeHealth, HealthSnapshot, is_unhealthy}
use kaa_s_demo.Domain.Observed.{NodeFault, not_ready, missing, vm_down}
use kaa_s_demo.Domain.Cluster.{Cluster}
use kaa_s_demo.Repair.{RepairPolicy, RepairObservation}

-- up, known := powered[vm]; known && !up
abbrev pub is_down : Option Bool → Bool
is_down none = false
is_down (some up) = not up

-- the first pass: VMs that the infrastructure reports as down
pub infra_faults : Dict Bool → List Node → Dict NodeFault → Dict NodeFault
infra_faults powered [] faults = faults
infra_faults powered (n ∷ ns) faults =
    infra_faults powered ns
      (if is_down (get powered n.vm_name) then put faults n.vm_name vm_down else faults)

-- the loop of apiServerUnreachable
checks_unreachable : List HealthCheck → Bool
checks_unreachable [] = true
checks_unreachable (ch ∷ chs) =
    if text_eq ch.id (codes "api-server") then is_unhealthy ch.status else checks_unreachable chs

unfoldable pub api_server_unreachable : HealthSnapshot → Bool
unfolding checks_unreachable text_eq
api_server_unreachable s = checks_unreachable s.checks

-- if _, already := faults[vm]; !already { faults[vm] = f }
pub put_new : Dict NodeFault → Text → NodeFault → Dict NodeFault
put_new faults vm f = if is_some (get faults vm) then faults else put faults vm f

-- the second pass: what the cluster reports of its nodes, and which nodes it reports
pub reported_nodes : List NodeHealth → Dict Bool → Dict Bool
reported_nodes [] reported = reported
reported_nodes (h ∷ hs) reported = reported_nodes hs (put reported h.node_name true)

pub health_faults : List NodeHealth → Dict NodeFault → Dict NodeFault
unfolding put_new
health_faults [] faults = faults
health_faults (h ∷ hs) faults =
    health_faults hs (if h.ready then faults else put_new faults h.node_name not_ready)

-- the third pass: nodes that have an IP and that the cluster has never heard of
pub missing_faults : Dict Bool → List Node → Dict NodeFault → Dict NodeFault
unfolding put_new
missing_faults reported [] faults = faults
missing_faults reported (n ∷ ns) faults = missing_faults reported ns (
    if text_eq n.ip [] || is_some (get reported n.vm_name)
    then faults
    else put_new faults n.vm_name missing)

-- what the passes over a snapshot add
pub snapshot_faults : Cluster → HealthSnapshot → Dict NodeFault → Dict NodeFault
unfolding reported_nodes health_faults missing_faults
snapshot_faults c s faults =
    missing_faults (reported_nodes s.nodes empty) c.nodes (health_faults s.nodes faults)

module _ {F : Type 0} where
  pub is_believed : RepairPolicy F → Time → HealthSnapshot → Bool
  unfolding api_server_unreachable
  is_believed p now s =
      leb_ℤ (sub now s.collected_at) p.health_max_age && not (api_server_unreachable s)

  unfoldable pub observe_faults :
      Cluster → RepairObservation F → RepairPolicy F → Dict NodeFault × Bool
  unfolding infra_faults is_believed snapshot_faults
  observe_faults c obs p =
      let faults = infra_faults obs.powered c.nodes empty in
      elim obs.health [
        | none ↦ (faults, false)
        | some s ↦
            if is_believed p obs.now s then (snapshot_faults c s faults, true) else (faults, false)
      ]
