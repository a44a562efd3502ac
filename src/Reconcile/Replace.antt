-- ===== src/Reconcile/Replace.antt =====
-- internal/reconcile/reconcile.go: a node is rebuilt on an image, for an upgrade or a repair. What is
-- done to the cluster before a failure stays done: `false` is an error.
use kaa_s_demo.Domain.Phase.{Role, is_control_plane}
use kaa_s_demo.Prelude.{
  text_eq, not, ◌&&◌, if◌then◌else◌, map, List, Option, Text, Bool, [], ◌∷◌, none, some, true,
  false,
}
use kaa_s_demo.Prelude.Dict.{Dict, get, put, empty}
use kaa_s_demo.Domain.Cluster.{Cluster, ha}
use kaa_s_demo.Domain.Node.{Node}
use kaa_s_demo.Reconcile.Seams.{Seams}
use kaa_s_demo.Reconcile.Nodes.{
  NodeSpec, ProvisionedNode, node_specs, to_domain_nodes, observe_disks, mounted, node_by_name,
  next_node_to_roll, text_or_empty,
}

-- the zero value of a node; its empty role is written as a worker, and nothing reads it
abbrev pub no_domain_node : Node
no_domain_node = record {
  id = [];
  role = Role.worker;
  vm_name = [];
  pool = [];
  ip = [];
  mac = [];
  phase = [];
  image = [];
}

abbrev pub or_no_domain_node : Option Node → Node
or_no_domain_node none = no_domain_node
or_no_domain_node (some n) = n

-- nodeByName
unfoldable pub node_named : List Node → Text → Node
node_named nodes name = or_no_domain_node (node_by_name nodes name)

-- current[n.VMName] = n.Image
unfoldable pub images_onto : List Node → Dict Text → Dict Text
images_onto [] d = d
images_onto (n ∷ ns) d = images_onto ns (put d n.vm_name n.image)

-- the image of one spec: the node's own, and the target for the node that is replaced
unfoldable pub imaged : Dict Text → Text → Text → NodeSpec → NodeSpec
imaged current vm target spec =
    let own = text_or_empty (get current spec.vm_name) in
    record spec {
      image =
          if text_eq spec.vm_name vm then target else if text_eq own [] then spec.image else own;
    }

unfoldable pub rolled_specs : Cluster → Node → Text → List NodeSpec
rolled_specs c node target =
    map (imaged (images_onto c.nodes empty) node.vm_name target) (node_specs c)

module _ (s : Seams) where
  -- recreateNodeVM: the cluster, and the nodes if there is no error
  unfoldable pub recreate_node_vm :
      Cluster → Node → Text → Bool → Cluster × Option (List ProvisionedNode)
  recreate_node_vm c node target force =
      if force && not (s.replace_vm c node)
      then (c, none)
      else elim (s.ensure_nodes c (rolled_specs c node target)) [
        | none ↦ (c, none)
        | some nodes ↦
            (record c { nodes = to_domain_nodes (rolled_specs c node target) nodes }, some nodes)
      ]

  -- the node leaves the cluster, or its state is saved
  unfoldable pub leave : Cluster → Node → Bool
  leave c node =
      if not (is_control_plane node.role)
      then s.remove_workers c (node ∷ [])
      else if not (ha c)
      then s.backup_control_plane c node
      else s.remove_control_plane c node

  -- the node that is rebuilt comes back
  unfoldable pub return_ : Cluster → Node → List ProvisionedNode → Cluster × Bool
  return_ c node nodes =
      let mounts = observe_disks c nodes in
      if is_control_plane node.role
      then (
        c,
        if not (ha c)
            then s.restore_control_plane c (node_named c.nodes node.vm_name)
            else s.join_control_plane c (node_named c.nodes node.vm_name),
      )
      else if not (s.join_workers c)
      then (c, false)
      else if not (s.ensure_node_disks mounts)
      then (mounts, false)
      else (record mounts { node_disks = map mounted mounts.node_disks }, true)

  unfoldable pub returned : Node → Cluster × Option (List ProvisionedNode) → Cluster × Bool
  returned node (c, none) = (c, false)
  returned node (c, some nodes) = return_ c node nodes

  -- a control plane from a new image has lost the wiring of its metrics
  unfoldable pub unwired : Cluster → Node → Cluster
  unwired c node = if is_control_plane node.role then record c { monitoring_wired = false } else c

  unfoldable pub rebuild_node : Cluster → Node → Text → Bool → Cluster × Bool
  rebuild_node c node target force =
      if not (leave c node)
      then (c, false)
      else returned node (recreate_node_vm c node target force)

  unfoldable pub replace_node : Cluster → Node → Text → Bool → Cluster × Bool
  replace_node c node target force =
      if not (s.image_available c target)
      then (c, false)
      else rebuild_node (unwired c node) node target force

  unfoldable pub roll_one_node : Cluster → Text → Cluster × Bool
  roll_one_node c target = elim (next_node_to_roll c.nodes target) [
    | none ↦ (c, true)
    | some node ↦ replace_node c node target false
  ]
