-- ===== src/Repair/Observe/Faults.antt =====
-- ObserveFaults, one VM at a time: what the three passes together conclude about it.
use kaa_s_demo.Repair.{RepairPolicy, RepairObservation}
use kaa_s_demo.Domain.Cluster.{Cluster}
use kaa_s_demo.Prelude.{
  false, Bool, true, not, ◌&&◌, ◌||◌, Option, none, some, List, [], ◌∷◌, Text, text_eq, text_eq_iff,
  refl, ◌≡◌, ◌∙◌, arith, if◌then◌else◌, Bool-cases, inl, inr,
}
use kaa_s_demo.Prelude.Dict.{get-empty, empty, Dict, get, get-put}
use kaa_s_demo.Prelude.Keys.{is_some}
use kaa_s_demo.Prelude.Any.{any}
use kaa_s_demo.Domain.Node.{Node}
use kaa_s_demo.Domain.Health.{HealthSnapshot, NodeHealth}
use kaa_s_demo.Domain.Observed.{NodeFault, not_ready, missing, vm_down}
use kaa_s_demo.Repair.Observe.{
  is_believed, observe_faults, snapshot_faults, is_down, infra_faults, put_new, reported_nodes,
  health_faults, missing_faults,
}

-- the cluster has a node of this VM
abbrev pub has_vm : List Node → Text → Bool
has_vm ns vm = any (λ n. text_eq n.vm_name vm) ns

-- ... one that has an IP
abbrev pub has_ip : List Node → Text → Bool
has_ip ns vm = any (λ n. text_eq n.vm_name vm && not (text_eq n.ip [])) ns

abbrev pub is_reported : List NodeHealth → Text → Bool
is_reported hs vm = any (λ h. text_eq h.node_name vm) hs

abbrev pub reports_unready : List NodeHealth → Text → Bool
reports_unready hs vm = any (λ h. text_eq h.node_name vm && not h.ready) hs

abbrev pub or_else : Option NodeFault → Option NodeFault → Option NodeFault
or_else none b = b
or_else (some a) b = some a

-- the fault of a VM that each layer sees, in the order in which they are believed
abbrev pub infra_fault : Dict Bool → List Node → Text → Option NodeFault
infra_fault powered ns vm = if has_vm ns vm && is_down (get powered vm) then some vm_down else none

abbrev pub unready_fault : List NodeHealth → Text → Option NodeFault
unready_fault hs vm = if reports_unready hs vm then some not_ready else none

abbrev pub missing_fault : List Node → List NodeHealth → Text → Option NodeFault
missing_fault ns hs vm = if has_ip ns vm && not (is_reported hs vm) then some missing else none

get-infra_faults :
    (powered : Dict Bool) (ns : List Node) (faults : Dict NodeFault) (vm : Text)
    → get (infra_faults powered ns faults) vm
      ≡ (if has_vm ns vm && is_down (get powered vm) then some vm_down else get faults vm)
unfolding infra_faults any
get-infra_faults powered [] faults vm = refl
get-infra_faults powered (n ∷ ns) faults vm = elim (Bool-cases (text_eq n.vm_name vm)) [
  | inl same ↦ rw ((text_eq_iff n.vm_name vm).0 same) (
      get-infra_faults powered ns _ vm
      ∙ ground (arith, get-put faults vm vm vm_down, text_eq_iff vm vm))
  | inr other ↦
      get-infra_faults powered ns _ vm ∙ ground (arith, get-put faults n.vm_name vm vm_down)
]

get-put_new :
    (faults : Dict NodeFault) (k vm : Text) (f : NodeFault)
    → get (put_new faults k f) vm
      ≡ (if text_eq k vm then or_else (get faults vm) (some f) else get faults vm)
unfolding put_new
get-put_new faults k vm f = elim (Bool-cases (text_eq k vm)) [
  | inl same ↦
      rw ((text_eq_iff k vm).0 same) (ground (arith, get-put faults vm vm f, text_eq_iff vm vm))
  | inr other ↦ ground (arith, get-put faults k vm f)
]

get-health_faults :
    (hs : List NodeHealth) (faults : Dict NodeFault) (vm : Text)
    → get (health_faults hs faults) vm ≡ or_else (get faults vm) (unready_fault hs vm)
unfolding health_faults any
get-health_faults [] faults vm = ground arith
get-health_faults (h ∷ hs) faults vm =
    get-health_faults hs _ vm ∙ ground (arith, get-put_new faults h.node_name vm not_ready)

get-reported_nodes :
    (hs : List NodeHealth) (reported : Dict Bool) (vm : Text)
    → is_some (get (reported_nodes hs reported) vm)
      ≡ (is_some (get reported vm) || is_reported hs vm)
unfolding reported_nodes any
get-reported_nodes [] reported vm = ground arith
get-reported_nodes (h ∷ hs) reported vm =
    get-reported_nodes hs _ vm ∙ ground (arith, get-put reported h.node_name vm true)

get-missing_faults :
    (reported : Dict Bool) (ns : List Node) (faults : Dict NodeFault) (vm : Text)
    → get (missing_faults reported ns faults) vm
      ≡ or_else
          (get faults vm)
          (if has_ip ns vm && not (is_some (get reported vm)) then some missing else none)
unfolding missing_faults any
get-missing_faults reported [] faults vm = ground arith
get-missing_faults reported (n ∷ ns) faults vm = elim (Bool-cases (text_eq n.vm_name vm)) [
  | inl same ↦ rw ((text_eq_iff n.vm_name vm).0 same) (
      get-missing_faults reported ns _ vm
      ∙ ground (arith, get-put_new faults vm vm missing, text_eq_iff vm vm))
  | inr other ↦
      get-missing_faults reported ns _ vm ∙ ground (arith, get-put_new faults n.vm_name vm missing)
]

-- what a believed snapshot adds
abbrev pub cluster_fault : List Node → Option HealthSnapshot → Text → Option NodeFault
cluster_fault ns none vm = none
cluster_fault ns (some s) vm = or_else (unready_fault s.nodes vm) (missing_fault ns s.nodes vm)

or_else_assoc : (a b c : Option NodeFault) → or_else (or_else a b) c ≡ or_else a (or_else b c)
or_else_assoc none b c = refl
or_else_assoc (some a) b c = refl

get-snapshot_faults :
    (c : Cluster) (s : HealthSnapshot) (faults : Dict NodeFault) (vm : Text)
    → get (snapshot_faults c s faults) vm
      ≡ or_else (get faults vm) (cluster_fault c.nodes (some s) vm)
unfolding snapshot_faults
get-snapshot_faults c s faults vm =
    get-missing_faults (reported_nodes s.nodes empty) c.nodes (health_faults s.nodes faults) vm
    ∙ rw (get-health_faults s.nodes faults vm, get-reported_nodes s.nodes empty vm)
        (rw (get-empty {V = Bool} vm) (
          or_else_assoc (get faults vm) (unready_fault s.nodes vm)
            (missing_fault c.nodes s.nodes vm)))

or_else-none : (a : Option NodeFault) → a ≡ or_else a none
or_else-none none = refl
or_else-none (some a) = refl

module _ {F : Type 0} (c : Cluster) (obs : RepairObservation F) (p : RepairPolicy F) where
  -- The fault that is found on a VM is the infrastructure's, if it reports a node of the cluster
  -- down; else, if the cluster is observable, NotReady where the snapshot reports the node so, and
  -- missing where the node has an IP and the snapshot does not report it; else none.
  pub get-observe_faults :
      (vm : Text)
      → get (observe_faults c obs p).0 vm
        ≡ or_else
            (infra_fault obs.powered c.nodes vm)
            (if (observe_faults c obs p).1 then cluster_fault c.nodes obs.health vm else none)
  unfolding observe_faults
  get-observe_faults vm = by_health obs.health
    where
      infra : Dict NodeFault
      infra = infra_faults obs.powered c.nodes empty

      infra_lem : get infra vm ≡ infra_fault obs.powered c.nodes vm
      infra_lem =
          get-infra_faults obs.powered c.nodes empty vm ∙ rw (get-empty {V = NodeFault} vm) refl

      observed : Option HealthSnapshot → Dict NodeFault × Bool
      observed h = elim h [
        | none ↦ (infra, false)
        | some s ↦
            if is_believed p obs.now s then (snapshot_faults c s infra, true) else (infra, false)
      ]

      by_health :
          (h : Option HealthSnapshot)
          → get (observed h).0 vm
            ≡ or_else
                (infra_fault obs.powered c.nodes vm)
                (if (observed h).1 then cluster_fault c.nodes h vm else none)
      by_health none = infra_lem ∙ or_else-none _
      by_health (some s) = elim (Bool-cases (is_believed p obs.now s)) [
        | inl believed ↦ rw believed (get-snapshot_faults c s infra vm ∙ rw infra_lem refl)
        | inr ignored ↦ rw ignored (infra_lem ∙ or_else-none _)
      ]

  -- When the cluster is not observable, every fault found is a VM of the cluster that the
  -- infrastructure itself reports as not running.
  pub unobservable_faults :
      (vm : Text) (f : NodeFault)
      → (observe_faults c obs p).1 ≡ false
      → get (observe_faults c obs p).0 vm ≡ some f
      → (f ≡ vm_down) × (has_vm c.nodes vm ≡ true) × (get obs.powered vm ≡ some false)
  unobservable_faults vm f blind found = infra_only (get-observe_faults vm)
    where
      infra_only :
          get (observe_faults c obs p).0 vm
            ≡ or_else
                (infra_fault obs.powered c.nodes vm)
                (if (observe_faults c obs p).1 then cluster_fault c.nodes obs.health vm else none)
          → (f ≡ vm_down) × (has_vm c.nodes vm ≡ true) × (get obs.powered vm ≡ some false)
      infra_only e = ground arith
