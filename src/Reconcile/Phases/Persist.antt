-- ===== src/Reconcile/Phases/Persist.antt =====
-- internal/reconcile/reconcile.go: how a tick's transition meets what the store holds by then.
use mathlib.Core.Path.{subst}
use kaa_s_demo.Domain.Phase.{Phase}
use kaa_s_demo.Go.Time.{Time}
use kaa_s_demo.Prelude.Dict.{get-put_self, get}
use kaa_s_demo.Domain.Cluster.{needs_work, is_converged, Cluster}
use kaa_s_demo.Prelude.{
  arith, ◌∙◌, text_eq, ◌||◌, ap, refl, sym, Option-cases, not, Bool-cases, ◌==◌, ℕ, ◌≡◌, Text, [],
  some, true, false, inl, inr,
}
use kaa_s_demo.Reconcile.Seams.{Seams}
use kaa_s_demo.Reconcile.Wiring.Kept.{IsSameRow}
use kaa_s_demo.Reconcile.Wiring.{release_dns, release_vault, release_registry}
use kaa_s_demo.Reconcile.Phases.{phase_step, persist, reconcile_one, delete_tick}
use kaa_s_demo.Reconcile.Steps.{TickInputs, run_passes, release_passes}
use kaa_s_demo.Reconcile.Phases.Edges.{phase_step-may_follow}
use kaa_s_demo.Reconcile.WorkSet.{Schedule}
use kaa_s_demo.Store.Memory.{Memory, get_cluster, update_cluster_unless_superseded}
use kaa_s_demo.Store.Log.{complete_operations}

module _ {F : Type 0} (s : Seams) (p : Schedule F) (i : TickInputs F) where
  -- a row of another generation, or none
  persist_stale :
      (d : Cluster) (m : Memory)
      → ((old : Cluster)
          → get m.clusters d.id ≡ some old
          → (old.generation == d.generation) ≡ false)
      → persist s p i d m ≡ m
  unfolding persist update_cluster_unless_superseded
  persist_stale d m h = elim (Option-cases (get m.clusters d.id)) [
    | inl gone ↦ simp (persist, update_cluster_unless_superseded, gone)
    | inr (old, found) ↦
        let newer = h old found in simp (persist, update_cluster_unless_superseded, found, newer)
  ]

  swept-clusters :
      (m : Memory) (k : Text) (through : ℕ) (at : Time)
      → (complete_operations m k through at).clusters ≡ m.clusters
  unfolding complete_operations
  swept-clusters m k through at = elim (Option-cases (get m.operations k)) [
    | inl e ↦ rw (complete_operations, e) refl
    | inr (ops, e) ↦ rw (complete_operations, e) refl
  ]

  persist_current :
      (d old : Cluster) (m : Memory)
      → get m.clusters d.id ≡ some old
      → (old.generation == d.generation) ≡ true
      → get (persist s p i d m).clusters d.id ≡ some d
  unfolding persist update_cluster_unless_superseded
  persist_current d old m found same = elim (Bool-cases (is_converged d)) [
    | inl settled ↦
        simp (persist, update_cluster_unless_superseded, found, same, settled)
          (rw (swept-clusters _ _ _ _) (get-put_self m.clusters d.id d))
    | inr busy ↦
        simp (persist, update_cluster_unless_superseded, found, same, busy)
          (get-put_self m.clusters d.id d)
  ]

-- Writing the cluster that a tick of c returns changes nothing in a store that has no row of its id,
-- or one of another generation than c's.
pub persist-superseded :
    {F : Type 0} (s : Seams) (p : Schedule F) (i : TickInputs F) (c : Cluster)
    → (before_ after_ : Memory) (d : Cluster) → (phase_step s p i c.phase c before_).0 ≡ some d
    → ((old : Cluster)
        → get_cluster after_ c.id ≡ some old
        → (old.generation == c.generation) ≡ false)
    → persist s p i d after_ ≡ after_
unfolding get_cluster
persist-superseded s p i c before_ after_ d e moved =
    let (edge, id, generation) = phase_step-may_follow s p i c before_ d e in
    persist_stale s p i d after_
      (λ old found. rw generation (moved old (sym (ap (get after_.clusters) id) ∙ found)))

-- Every call that a deletion makes succeeds.
pub record IsReleasing (s : Seams) : Type 0 where
  pub dns : (c : Cluster) → s.dns_release c ≡ true
  pub vault : (c : Cluster) → s.vault_release c ≡ true
  pub registry : (c : Cluster) → s.registry_release c ≡ true
  pub infra : (c : Cluster) → s.destroy_cluster c ≡ true

module _ {F : Type 0} (s : Seams) (p : Schedule F) (i : TickInputs F) (ok : IsReleasing s) where
  dns_released :
      (c : Cluster) (m : Memory) → (d : Cluster) × (release_dns s c m ≡ (some d, m)) × IsSameRow c d
  unfolding release_dns
  dns_released c m = elim (Bool-cases (not s.dns_enabled || text_eq c.apps_domain [])) [
    | inl off ↦ (c, simp (release_dns, off), (refl, refl, refl, refl))
    | inr on ↦
        (record c { dns_wired = false }, simp (release_dns, on, ok.dns c), (refl, refl, refl, refl))
  ]

  vault_released :
      (c : Cluster) (m : Memory)
      → (d : Cluster) × (release_vault s c m ≡ (some d, m)) × IsSameRow c d
  unfolding release_vault
  vault_released c m = elim (Bool-cases (not s.vault_enabled)) [
    | inl off ↦ (c, simp (release_vault, off), (refl, refl, refl, refl))
    | inr on ↦ (
      record c { vault_wired = false },
      simp (release_vault, on, ok.vault c),
      (refl, refl, refl, refl),
    )
  ]

  registry_released :
      (c : Cluster) (m : Memory)
      → (d : Cluster) × (release_registry s c m ≡ (some d, m)) × IsSameRow c d
  unfolding release_registry
  registry_released c m = elim (Bool-cases (not s.registry_enabled)) [
    | inl off ↦ (c, simp (release_registry, off), (refl, refl, refl, refl))
    | inr on ↦ (
      record c { registry_wired = false },
      simp (release_registry, on, ok.registry c),
      (refl, refl, refl, refl),
    )
  ]

  deleted_from :
      (c : Cluster) (m : Memory)
      → (d : Cluster) × (phase_step s p i Phase.deleting c m ≡ (some d, m))
        × (d.phase ≡ Phase.deleted)
        × (d.id ≡ c.id)
        × (d.generation ≡ c.generation)
  unfolding phase_step delete_tick run_passes release_passes
  deleted_from c m =
      let (c1, e1, same1) = dns_released c m in
      let (c2, e2, same2) = vault_released c1 m in
      let (c3, e3, same3) = registry_released c2 m in
      let infra = ok.infra c3 in
      (
        record c3 { deleted_at = some i.now; phase = Phase.deleted },
        ground (arith, e1, e2, e3, infra),
        refl,
        same3.0 ∙ same2.0 ∙ same1.0,
        same3.1 ∙ same2.1 ∙ same1.1,
      )

reconcile_one_lem :
    {F : Type 0} (s : Seams) (p : Schedule F) (i : TickInputs F) (c d : Cluster) (m m' : Memory)
    → phase_step s p i c.phase c m ≡ (some d, m')
    → reconcile_one s p i c m ≡ persist s p i d m'
unfolding reconcile_one
reconcile_one_lem s p i c d m m' done =
    let answer : (phase_step s p i c.phase c m).0 ≡ some d = ap (λ q. q.0) done in
    let state : (phase_step s p i c.phase c m).1 ≡ m' = ap (λ q. q.1) done in
    rw (answer, reconcile_one) (rw state refl)

-- If the calls that release DNS, Vault, registry and infrastructure succeed, then one tick of a stored
-- cluster in Deleting stores it as Deleted, and it needs no work any more.
pub reconcile_one-deletes :
    {F : Type 0} (s : Seams) (p : Schedule F) (i : TickInputs F) (c : Cluster) (m : Memory)
    → IsReleasing s
    → c.phase ≡ Phase.deleting
    → get_cluster m c.id ≡ some c
    → (d : Cluster) × (get_cluster (reconcile_one s p i c m) c.id ≡ some d)
      × (d.phase ≡ Phase.deleted)
      × (needs_work d ≡ false)
unfolding get_cluster needs_work
reconcile_one-deletes s p i c m ok e stored =
    let (d, done, gone, id, generation) = deleted_from s p i ok c m in
    let done' : phase_step s p i c.phase c m ≡ (some d, m) =
      subst (λ (q : Phase). phase_step s p i q c m ≡ (some d, m)) (sym e) done in
    let same : (c.generation == d.generation) ≡ true = ground (arith, generation) in
    let found : get m.clusters d.id ≡ some c = ap (get m.clusters) id ∙ stored in
    (
      d,
      rw (reconcile_one_lem s p i c d m m done') (
          subst (λ (k : Text). get (persist s p i d m).clusters k ≡ some d) id
            (persist_current s p i d c m found same)),
      gone,
      rw gone refl,
    )
