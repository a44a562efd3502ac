-- ===== src/Reconcile/Phases/Ready.antt =====
-- internal/reconcile/reconcile.go: the tick of a Ready cluster.
use kaa_s_demo.Reconcile.Steps.{TickInputs, answer_of, reconcile_certs, reconcile_etcd}
use kaa_s_demo.Reconcile.Phases.Passes.{IsTickOf}
use kaa_s_demo.Repair.Observe.{observe_faults}
use kaa_s_demo.Repair.Plan.Choice.{plan-Chosen}
use kaa_s_demo.Repair.Tick.State.{faults_now, observed_now, planned_now, plan_now}
use kaa_s_demo.Etcd.Defrag.{etcd_maintenance_due}
use kaa_s_demo.Etcd.Snapshot.{etcd_snapshot_due}
use mathlib.Core.Path.{subst}
use kaa_s_demo.Go.Time.{Time}
use kaa_s_demo.Repair.{act, repair_due, Reason, RepairPlan, RepairObservation}
use kaa_s_demo.Repair.Tick.{
  PowerRead, Event, HealthRead, observed, promoted, decide_repair, reconcile_repair,
}
use kaa_s_demo.Domain.Cluster.{cert_renewal_due, upgrade_pending, Cluster}
use kaa_s_demo.Prelude.{
  ap, inr, inl, some_inj, ◌&&◌, refl, Bool-cases, ℕ, Option, not, ◌==◌, ◌≡◌, arith, List, none,
  some,
}
use kaa_s_demo.Reconcile.Act.{if-Ensures, then-Ensures, Act, pure, ask, Ensures}
use kaa_s_demo.Reconcile.Seams.{Seams}
use kaa_s_demo.Reconcile.Wiring.Kept.{IsSameRow}
use kaa_s_demo.Reconcile.Phases.{ready_choice, phase_step, ready_tick, heal_viewer}
use kaa_s_demo.Reconcile.WorkSet.{cert_renew_cutoff, cert_renew_enabled, Schedule}
use kaa_s_demo.Domain.Phase.{Phase}

module _ {F : Type 0} (s : Seams) (p : Schedule F) (i : TickInputs F) (c : Cluster) where
  promoted_row :
      (now : Time) (said : List (Event F)) (pl : RepairPlan) (why : Reason F) (c' : Cluster)
      → IsSameRow c c'
      → c.phase ≡ Phase.ready
      → IsTickOf Phase.ready c (promoted p.repair_policy now said pl why c').0
  unfolding promoted
  promoted_row now said pl why c' same r = elim (Bool-cases (act pl)) [
    | inl acts ↦ rw (acts, promoted) (refl, same.0, same.1)
    | inr not_ ↦ rw (not_, promoted) (rw (same.3, r) refl, same.0, same.1)
  ]

  -- what is observed and planned is kept beside the row
  planned-IsSameRow :
      (obs : RepairObservation F) → IsSameRow c (planned_now i.fl p.repair_policy c obs)
  unfolding observed
  planned-IsSameRow obs =
      let rest =
        (plan-Chosen i.fl p.repair_policy (observed_now i.fl p.repair_policy c obs) obs
          (faults_now i.fl p.repair_policy c obs)
          (observe_faults c obs p.repair_policy).1).1.rest in
      (
        ap (λ (x : Cluster). x.id) rest,
        ap (λ (x : Cluster). x.generation) rest,
        ap (λ (x : Cluster). x.observed_generation) rest,
        ap (λ (x : Cluster). x.phase) rest,
      )

  decided :
      (obs : RepairObservation F)
      → c.phase ≡ Phase.ready
      → IsTickOf Phase.ready c (decide_repair i.fl p.repair_policy c obs).0
  unfolding decide_repair
  decided obs r =
      promoted_row obs.now _ (plan_now i.fl p.repair_policy c obs) _
        (planned_now i.fl p.repair_policy c obs) (planned-IsSameRow obs) r

  repaired :
      (d : Cluster)
      → c.phase ≡ Phase.ready
      → answer_of (reconcile_repair i.fl p.repair_policy i.health i.power i.fleet i.now c) ≡ some d
      → IsTickOf Phase.ready c d
  unfolding reconcile_repair
  repaired d r e = repaired_by i.health i.power i.fleet e
    where
      repaired_by :
          (h : HealthRead) (w : PowerRead) (fleet : Option (F × ℕ))
          → answer_of (reconcile_repair i.fl p.repair_policy h w fleet i.now c) ≡ some d
          → IsTickOf Phase.ready c d
      repaired_by HealthRead.read_failed w fleet e = cc
      repaired_by (HealthRead.stored x) w none e = cc
      repaired_by HealthRead.never_taken w none e = cc
      repaired_by (HealthRead.stored x) w (some (a, b)) e =
          subst (IsTickOf Phase.ready c) (some_inj e) (decided _ r)
      repaired_by HealthRead.never_taken w (some (a, b)) e =
          subst (IsTickOf Phase.ready c) (some_inj e) (decided _ r)

  certs_lem : c.phase ≡ Phase.ready → Ensures (IsTickOf Phase.ready c) (reconcile_certs s p i c)
  unfolding reconcile_certs
  certs_lem r m d e = ground arith

  etcd_lem : c.phase ≡ Phase.ready → Ensures (IsTickOf Phase.ready c) (reconcile_etcd s p i c)
  unfolding reconcile_etcd
  etcd_lem r m d e = ground arith

  choice_lem : c.phase ≡ Phase.ready → Ensures (IsTickOf Phase.ready c) (ready_choice s p i c)
  unfolding ready_choice
  choice_lem r m d e =
      let P = IsTickOf Phase.ready c in
      let keep : Cluster → Act Cluster = λ d. pure d in
      if-Ensures P (upgrade_pending c) (pure (record c { phase = Phase.upgrading })) _
        (λ m d e. ground arith)
        (if-Ensures P (not (c.observed_generation == c.generation))
          (pure (record c { phase = Phase.updating })) _ (λ m d e. ground arith)
          (if-Ensures P (repair_due c p.repair_policy i.now)
            (ask
              (answer_of (reconcile_repair i.fl p.repair_policy i.health i.power i.fleet i.now c)))
            _ (λ m d e. repaired d r e)
            (if-Ensures P (cert_renew_enabled p && cert_renewal_due c (cert_renew_cutoff p i.now))
              (reconcile_certs s p i c) _ (certs_lem r)
              (if-Ensures P (etcd_snapshot_due c p.snapshot_policy i.now)
                (pure (record c { phase = Phase.snapshotting_etcd })) _ (λ m d e. ground arith)
                (if-Ensures P (etcd_maintenance_due c p.etcd_policy i.now) (reconcile_etcd s p i c)
                  (pure c) (etcd_lem r) (λ m d e. ground arith))))))
        m d e

  pub tick_ready :
      c.phase ≡ Phase.ready → Ensures (IsTickOf Phase.ready c) (phase_step s p i Phase.ready c)
  unfolding phase_step ready_tick
  tick_ready r =
      then-Ensures (IsTickOf Phase.ready c) (heal_viewer s p i c) (λ _. ready_choice s p i c)
        (λ _. choice_lem r)
