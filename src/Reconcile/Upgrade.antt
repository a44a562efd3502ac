-- ===== src/Reconcile/Upgrade.antt =====
-- internal/reconcile/reconcile.go: one tick of an upgrade, along the bundles of the catalog.
pub mod Edges
use kaa_s_demo.Prelude.{
  Option, ◌++◌, codes, ◌&&◌, not, text_eq, map, ◌||◌, if◌then◌else◌, Bool, Text, [], none, some,
  true, false,
}
use kaa_s_demo.Prelude.Dict.{Dict, get, empty}
use kaa_s_demo.Domain.Cluster.{infra_provider, Cluster}
use kaa_s_demo.Domain.Node.{Addon}
use kaa_s_demo.Domain.Phase.{Phase}
use kaa_s_demo.Catalog.{
  Bundle, Catalog, ResolvedBundle, BundleDiff, resolve, diff_resolved, versions_onto,
}
use kaa_s_demo.Catalog.Upgrades.{next_upgrade}
use kaa_s_demo.Reconcile.Act.{Act, ◌>>=◌, ◌>>◌, pure, ask, check}
use kaa_s_demo.Reconcile.Seams.{Seams}
use kaa_s_demo.Reconcile.Nodes.{golden_image_name_for, nodes_converged, all_nodes_on_image}
use kaa_s_demo.Reconcile.Replace.{roll_one_node}
use kaa_s_demo.Reconcile.Wiring.{reconcile_addons, reconcile_monitoring_wiring, removing_phase}

-- the version that the hop pins; an add-on that changes is installed again
unfoldable pub bumped : Dict Text → Addon → Addon
bumped pinned a = if text_eq a.phase removing_phase then a else elim (get pinned a.name) [
  | none ↦ a
  | some v ↦ if text_eq v a.version then a else record a { version = v; phase = codes "pending" }
]

abbrev pub addons_bumped : Cluster → ResolvedBundle → Cluster
addons_bumped c to = record c { addons = map (bumped (versions_onto to.addons empty)) c.addons }

unfoldable pub hopped : Cluster → Text → ResolvedBundle → Cluster
hopped c bundle to = record c {
  bundle = bundle;
  os_image = to.os.name;
  k8s_version = to.kubernetes;
  cni = to.cni.name;
  cni_version = to.cni.version;
}

-- the end of a promotion: another hop stays pending until the target is reached
unfoldable pub promoted_to : Cluster → Cluster
promoted_to c =
    if text_eq c.bundle c.target_bundle
    then record c {
      phase = Phase.ready;
      target_bundle = [];
      status = codes "upgraded to " ++ c.bundle ++ codes " (k8s " ++ c.k8s_version ++ codes ")";
      observed_generation = if nodes_converged c then c.generation else c.observed_generation;
    }
    else record c { phase = Phase.ready }

-- nothing to promote to
abbrev pub given_up : Cluster → Cluster
given_up c = record c {
  phase = Phase.ready;
  target_bundle = [];
  observed_generation = c.generation;
}

-- the certificates are new after a new Kubernetes or OS
abbrev pub certs_forgotten : BundleDiff → Cluster → Cluster
certs_forgotten diff c =
    if diff.k8s_changed || diff.os_changed then record c { cert_not_after = none } else c

module _ (s : Seams) where
  unfoldable pub install_hop_cni : BundleDiff → Cluster → Act Cluster
  install_hop_cni diff c =
      if not diff.cni_changed
      then pure c
      else do check (s.install_cni c); pure (record c { monitoring_wired = false })

  unfoldable pub finalize_hop : Cluster → Text → ResolvedBundle → BundleDiff → Act Cluster
  finalize_hop c bundle to diff = do
    c1 ← install_hop_cni diff (hopped c bundle to)
    reconcile_addons s (addons_bumped c1 to)

  -- what follows when no node is left to roll
  unfoldable pub finish_hop : Cluster → Text → ResolvedBundle → BundleDiff → Act Cluster
  finish_hop c bundle to diff = do
    check (
        if not diff.os_changed && diff.k8s_changed
        then s.upgrade_kubernetes c to.kubernetes
        else true)
    c1 ← finalize_hop c bundle to diff
    c2 ← reconcile_monitoring_wiring s (certs_forgotten diff c1)
    pure (promoted_to c2)

  -- a rolled node ends the tick; a failure loses what was done to the copy
  unfoldable pub rolled : Cluster × Bool → Act Cluster
  rolled (c, done) = do check done; pure c

  unfoldable pub hop_to : Cluster → Text → ResolvedBundle → ResolvedBundle → Act Cluster
  hop_to c bundle from to =
      let diff = diff_resolved from to in
      let image = golden_image_name_for (infra_provider c) to.os.name to.kubernetes in
      if diff.os_changed && not (all_nodes_on_image c.nodes image)
      then rolled (roll_one_node s c image)
      else finish_hop c bundle to diff

  unfoldable pub hop_from : Catalog → Cluster → Option Bundle → Act Cluster
  hop_from cat c none = pure (given_up c)
  hop_from cat c (some hop) = do
    from ← ask (resolve cat c.bundle)
    to ← ask (resolve cat hop.name)
    hop_to c hop.name from to

  unfoldable pub reconcile_upgrade : Catalog → Cluster → Act Cluster
  reconcile_upgrade cat c = hop_from cat c (next_upgrade cat c.bundle)
