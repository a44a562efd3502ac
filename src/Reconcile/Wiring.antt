-- ===== src/Reconcile/Wiring.antt =====
-- internal/reconcile: the parts of a pass over a cluster that has its nodes: secrets, add-ons, the
-- wiring of monitoring, gateway, DNS, Vault, registry and storage, and disks.
pub mod Kept
use kaa_s_demo.Go.Time.{is_zero}
use kaa_s_demo.Prelude.Any.{any}
use kaa_s_demo.Domain.Node.{Addon}
use kaa_s_demo.Domain.Cluster.{Cluster}
use kaa_s_demo.Prelude.{
  ◌||◌, ◌&&◌, ◌==◌, text_eq, not, length, Bool, codes, Option, map, if◌then◌else◌, List, Text, [],
  ◌∷◌, none, some, true, false, ◌++◌,
}
use kaa_s_demo.Reconcile.Act.{Act, ◌>>=◌, ◌>>◌, pure, ask, check, modify, gets}
use kaa_s_demo.Reconcile.Seams.{Seams, RobotCredential, is_valid_credential}
use kaa_s_demo.Reconcile.Nodes.{mounted, removing_disks, kept_disks}
use kaa_s_demo.Store.Log.{save_secret, get_secret}
use kaa_s_demo.Domain.Disks.{storage_fingerprint}
use kaa_s_demo.Domain.Phase.{SecretKind}

abbrev pub installed_phase : Text
installed_phase = codes "installed"

abbrev pub removing_phase : Text
removing_phase = codes "removing"

unfoldable pub addon_installed : List Addon → Text → Bool
addon_installed addons name =
    any (λ a. text_eq a.name name && text_eq a.phase installed_phase) addons

unfoldable pub addon_selected : List Addon → Text → Bool
addon_selected addons name =
    any (λ a. text_eq a.name name && not (text_eq a.phase removing_phase)) addons

module _ (s : Seams) where
  -- Reconciler.saveSecret and Reconciler.getSecret
  unfoldable pub save_sealed : Text → SecretKind → Text → Act (Unit {0})
  save_sealed cluster kind plain = do
    sealed ← ask (s.seal plain)
    modify (λ m. save_secret m cluster kind sealed)

  unfoldable pub open_secret : Text → SecretKind → Act Text
  open_secret cluster kind = do
    stored ← gets (λ m. get_secret m cluster kind)
    sealed ← ask stored
    ask (s.unseal sealed)

  unfoldable pub ensure_viewer : Cluster → Act (Unit {0})
  ensure_viewer c = do
    kubeconfig ← ask (s.ensure_viewer_kubeconfig c)
    save_sealed c.id SecretKind.kubeconfig_viewer kubeconfig

  -- The loop of reconcileAddons. The kubeconfig is fetched at the first add-on that needs it; a
  -- failure leaves the stored cluster as it is, so the list that is spliced together then is lost.
  unfoldable pub converge_addons : Cluster → Option Text → List Addon → Act (List Addon)
  converge_addons c held [] = pure []
  converge_addons c held (a ∷ as') =
      let keep : Act (List Addon) = (do rest ← converge_addons c held as'; pure (a ∷ rest)) in
      let kubeconfig : Act Text = elim held [
        | some k ↦ pure k
        | none ↦ open_secret c.id SecretKind.kubeconfig
      ] in
      let drop_ : Act (List Addon) = (do
        k ← kubeconfig
        check (s.uninstall_addon c a k)
        converge_addons c (some k) as') in
      let install : Act (List Addon) = (do
        k ← kubeconfig
        check (s.install_addon c a k)
        rest ← converge_addons c (some k) as'
        pure (record a { phase = installed_phase } ∷ rest)) in
      if text_eq a.phase removing_phase
      then drop_
      else if text_eq a.phase installed_phase
      then keep
      else install

  unfoldable pub reconcile_addons : Cluster → Act Cluster
  reconcile_addons c = do
    addons ← converge_addons c none c.addons
    pure (record c { addons = addons })

  unfoldable pub reconcile_monitoring_wiring : Cluster → Act Cluster
  reconcile_monitoring_wiring c =
      if not (addon_installed c.addons (codes "kube-prometheus-stack")) || c.monitoring_wired
      then pure c
      else do
        check (s.ensure_control_plane_metrics c)
        check (s.ensure_cni_metrics c)
        pure (record c { monitoring_wired = true })

  unfoldable pub gateway_wiring_ready : Cluster → Bool
  gateway_wiring_ready c =
      if text_eq c.load_balancer_ip []
      then false
      else if addon_selected c.addons (codes "cert-manager")
          && not (addon_installed c.addons (codes "cert-manager"))
      then false
      else addon_installed c.addons (codes "metallb")
        && addon_installed c.addons (codes "envoy-gateway")

  unfoldable pub reconcile_gateway_wiring : Cluster → Act Cluster
  reconcile_gateway_wiring c =
      if not (gateway_wiring_ready c) || c.gateway_wired
      then pure c
      else do check (s.ensure_default_gateway c); pure (record c { gateway_wired = true })

  unfoldable pub reconcile_storage_wiring : Cluster → Act Cluster
  reconcile_storage_wiring c =
      if text_eq (storage_fingerprint c) c.storage_wired
        || not (addon_installed c.addons (codes "longhorn"))
      then pure c
      else do
        check (s.ensure_longhorn_disks c)
        pure (record c { storage_wired = storage_fingerprint c })

  unfoldable pub reconcile_dns_wiring : Cluster → Act Cluster
  reconcile_dns_wiring c =
      if not s.dns_enabled || text_eq c.apps_domain [] || not c.gateway_wired || c.dns_wired
      then pure c
      else do check (s.dns_ensure c); pure (record c { dns_wired = true })

  unfoldable pub reconcile_vault_wiring : Cluster → Act Cluster
  reconcile_vault_wiring c =
      if not s.vault_enabled
        || c.vault_wired
        || not (addon_installed c.addons (codes "external-secrets"))
      then pure c
      else do
        check (s.eso_auth c)
        check (s.vault_ensure c)
        check (s.ensure_external_secrets c)
        pure (record c { vault_wired = true })

  -- a robot that exists already answers with no credential: the sealed one is read back
  unfoldable pub registry_credential : Cluster → RobotCredential → Act RobotCredential
  registry_credential c cred =
      if not (is_valid_credential cred)
      then (do plain ← open_secret c.id SecretKind.registry_pull; ask (s.unmarshal plain))
      else do blob ← ask (s.marshal cred); save_sealed c.id SecretKind.registry_pull blob; pure cred

  unfoldable pub reconcile_registry_wiring : Cluster → Act Cluster
  reconcile_registry_wiring c = if not s.registry_enabled || c.registry_wired then pure c else do
    answer ← ask (s.registry_ensure c)
    cred ← registry_credential c answer
    check (s.ensure_registry_pull_secret c cred.username cred.secret)
    pure (record c {
      registry_robot_not_after =
          if is_zero cred.expires then c.registry_robot_not_after else some cred.expires;
      registry_wired = true;
    })

  unfoldable pub mount_node_disks : Cluster → Act Cluster
  mount_node_disks c = do
    check (s.ensure_node_disks c)
    pure (record c { node_disks = map mounted c.node_disks })

  unfoldable pub release_removed_disks : Cluster → Act Cluster
  release_removed_disks c = if length (removing_disks c.node_disks) == 0 then pure c else do
    check (s.evict_longhorn_disks c (removing_disks c.node_disks))
    check (s.remove_node_disks c (removing_disks c.node_disks))
    pure (record c {
      node_disks = kept_disks c.node_disks;
      storage_wired = storage_fingerprint (record c { node_disks = kept_disks c.node_disks });
    })

  unfoldable pub release_dns : Cluster → Act Cluster
  release_dns c =
      if not s.dns_enabled || text_eq c.apps_domain []
      then pure c
      else do check (s.dns_release c); pure (record c { dns_wired = false })

  unfoldable pub release_vault : Cluster → Act Cluster
  release_vault c =
      if not s.vault_enabled
      then pure c
      else do check (s.vault_release c); pure (record c { vault_wired = false })

  unfoldable pub release_registry : Cluster → Act Cluster
  release_registry c =
      if not s.registry_enabled
      then pure c
      else do check (s.registry_release c); pure (record c { registry_wired = false })
