-- ===== src/Reconcile/Upgrade/Edges.antt =====
-- internal/reconcile/reconcile.go: where a tick of an upgrade leads.
use kaa_s_demo.Reconcile.Replace.{roll_one_node}
use kaa_s_demo.Reconcile.Nodes.{all_nodes_on_image, golden_image_name_for}
use kaa_s_demo.Catalog.Upgrades.{next_upgrade}
use kaa_s_demo.Reconcile.Wiring.{reconcile_addons, reconcile_monitoring_wiring}
use kaa_s_demo.Prelude.{
  Option, ◌&&◌, not, if◌then◌else◌, Bool, refl, ◌⊎◌, Text, ◌≡◌, arith, none, some, true, inr,
}
use kaa_s_demo.Domain.Cluster.{infra_provider, Cluster}
use kaa_s_demo.Domain.Phase.{Phase}
use kaa_s_demo.Catalog.{resolve, Bundle, diff_resolved, Catalog, ResolvedBundle, BundleDiff}
use kaa_s_demo.Reconcile.Act.{
  ◌>>=◌, check, ask, pure, Ensures, bind-Ensures, then-Ensures, if-Ensures, pure-Ensures,
}
use kaa_s_demo.Reconcile.Seams.{Seams}
use kaa_s_demo.Reconcile.Upgrade.{
  given_up, hop_from, addons_bumped, reconcile_upgrade, hop_to, rolled, finish_hop, finalize_hop,
  install_hop_cni, hopped, promoted_to, certs_forgotten,
}
use kaa_s_demo.Reconcile.Repairs.Kept.{roll_one_node-IsSameRow}
use kaa_s_demo.Reconcile.Wiring.Kept.{
  IsSameRow-trans, IsSameRow, addons-IsSameRow, monitoring-IsSameRow,
}

-- An upgrade stays, or ends in Ready, and keeps the row.
abbrev pub IsUpgraded : Cluster → Cluster → Type 0
IsUpgraded c d =
    ((d.phase ≡ Phase.upgrading) ⊎ (d.phase ≡ Phase.ready))
    × (d.id ≡ c.id)
    × (d.generation ≡ c.generation)

promoted-IsUpgraded : (c d : Cluster) → IsSameRow c d → IsUpgraded c (promoted_to d)
unfolding promoted_to
promoted-IsUpgraded c d h = ground arith

module _ (s : Seams) (c : Cluster) where
  cni-IsSameRow :
      (diff : BundleDiff) (d : Cluster) → Ensures (IsSameRow d) (install_hop_cni s diff d)
  unfolding install_hop_cni
  cni-IsSameRow diff d m a e = ground arith

  finalize_hop-IsSameRow :
      (bundle : Text) (to : ResolvedBundle) (diff : BundleDiff)
      → Ensures (IsSameRow c) (finalize_hop s c bundle to diff)
  unfolding finalize_hop hopped
  finalize_hop-IsSameRow bundle to diff =
      bind-Ensures (IsSameRow c) (IsSameRow c) (install_hop_cni s diff (hopped c bundle to))
        (λ c1. reconcile_addons s (addons_bumped c1 to))
        (λ m d e.
          IsSameRow-trans c (hopped c bundle to) d (refl, refl, refl, refl)
            (cni-IsSameRow diff (hopped c bundle to) m d e))
        (λ c1 same m d e.
          IsSameRow-trans c (addons_bumped c1 to) d same
            (addons-IsSameRow s (addons_bumped c1 to) m d e))

  forgotten-IsSameRow : (diff : BundleDiff) (d : Cluster) → IsSameRow d (certs_forgotten diff d)
  forgotten-IsSameRow diff d = ground arith

  -- the wiring after a hop, and its end
  wired-IsUpgraded :
      (d : Cluster)
      → IsSameRow c d
      → Ensures (IsUpgraded c) (reconcile_monitoring_wiring s d >>= λ c2. pure (promoted_to c2))
  wired-IsUpgraded d same =
      bind-Ensures (IsSameRow c) (IsUpgraded c) (reconcile_monitoring_wiring s d)
        (λ c2. pure (promoted_to c2))
        (λ m e done. IsSameRow-trans c d e same (monitoring-IsSameRow s d m e done))
        (λ c2 same2. pure-Ensures (IsUpgraded c) (promoted_to c2) (promoted-IsUpgraded c c2 same2))

  finish_hop-IsUpgraded :
      (bundle : Text) (to : ResolvedBundle) (diff : BundleDiff)
      → Ensures (IsUpgraded c) (finish_hop s c bundle to diff)
  unfolding finish_hop
  finish_hop-IsUpgraded bundle to diff =
      then-Ensures (IsUpgraded c)
        (check (
          if not diff.os_changed && diff.k8s_changed
          then s.upgrade_kubernetes c to.kubernetes
          else true))
        (λ u. finalize_hop s c bundle to diff >>= λ c1.
          reconcile_monitoring_wiring s (certs_forgotten diff c1) >>= λ c2. pure (promoted_to c2))
        (λ u.
          bind-Ensures (IsSameRow c) (IsUpgraded c) (finalize_hop s c bundle to diff)
            (λ c1. reconcile_monitoring_wiring s (certs_forgotten diff c1) >>= λ c2.
              pure (promoted_to c2))
            (finalize_hop-IsSameRow bundle to diff)
            (λ c1 same.
              wired-IsUpgraded (certs_forgotten diff c1) (
                IsSameRow-trans c c1 (certs_forgotten diff c1) same (forgotten-IsSameRow diff c1))))

  module _ (is_ : c.phase ≡ Phase.upgrading) where
    rolled-IsUpgraded : (r : Cluster × Bool) → IsSameRow c r.0 → Ensures (IsUpgraded c) (rolled s r)
    unfolding rolled
    rolled-IsUpgraded (d, done) h m e eq = ground arith

    hop_to-IsUpgraded :
        (bundle : Text) (from to : ResolvedBundle)
        → Ensures (IsUpgraded c) (hop_to s c bundle from to)
    unfolding hop_to
    hop_to-IsUpgraded bundle from to =
        let diff = diff_resolved from to in
        let image = golden_image_name_for (infra_provider c) to.os.name to.kubernetes in
        if-Ensures (IsUpgraded c) (diff.os_changed && not (all_nodes_on_image c.nodes image))
          (rolled s (roll_one_node s c image)) (finish_hop s c bundle to diff)
          (rolled-IsUpgraded (roll_one_node s c image) (roll_one_node-IsSameRow s c image))
          (finish_hop-IsUpgraded bundle to diff)

    hop_from-IsUpgraded :
        (cat : Catalog) (hop : Option Bundle) → Ensures (IsUpgraded c) (hop_from s cat c hop)
    unfolding hop_from
    hop_from-IsUpgraded cat none = pure-Ensures (IsUpgraded c) (given_up c) (inr refl, refl, refl)
    hop_from-IsUpgraded cat (some hop) =
        then-Ensures (IsUpgraded c) (ask (resolve cat c.bundle))
          (λ from. ask (resolve cat hop.name) >>= λ to. hop_to s c hop.name from to)
          (λ from.
            then-Ensures (IsUpgraded c) (ask (resolve cat hop.name))
              (λ to. hop_to s c hop.name from to) (λ to. hop_to-IsUpgraded hop.name from to))

    pub reconcile_upgrade-IsUpgraded :
        (cat : Catalog) → Ensures (IsUpgraded c) (reconcile_upgrade s cat c)
    unfolding reconcile_upgrade
    reconcile_upgrade-IsUpgraded cat = hop_from-IsUpgraded cat (next_upgrade cat c.bundle)
