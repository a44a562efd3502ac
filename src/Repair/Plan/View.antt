-- ===== src/Repair/Plan/View.antt =====
-- What Plan reads of the durable repair state, and that its lookups leave that as it was.
use mathlib.Core.Path.{fun_ext}
use kaa_s_demo.Prelude.{
  text_eq_refl, ℕ, suc, Option, none, some, List, [], ◌∷◌, Text, text_eq, text_eq_iff, refl, ◌≡◌,
  ◌∙◌, sym, ap, arith, if◌then◌else◌, Bool-cases, inl, inr,
}
use kaa_s_demo.Prelude.Dict.{empty, Dict, get}
use kaa_s_demo.Prelude.Keys.{is_some}
use kaa_s_demo.Domain.Node.{Node}
use kaa_s_demo.Domain.Observed.{NodeFault, NodeRepairState, no_state, ClusterRepair}
use kaa_s_demo.Domain.Cluster.{control_plane_count, ha, Cluster, control_planes_of}
use kaa_s_demo.Go.Time.{Duration, sub, Time}
use kaa_s_demo.Repair.{or_no_repair, RepairPolicy, repair_state, or_no_state}
use kaa_s_demo.Repair.Merge.Pointwise.{state_lem, get-state}
use kaa_s_demo.Repair.Action.{
  destructive_action, faulty_in, count_faulty, faulty_planes, next_action,
}
use kaa_s_demo.Repair.Plan.{node_state}

-- the state of a VM as it is read: that of its entry, or the empty one
unfoldable pub view : Cluster → Text → NodeRepairState
view c vm = or_no_state (get (repair_state c).nodes vm)

-- Two clusters that differ in their repair state alone, and read alike.
pub record SameView (c c' : Cluster) : Type 0 where
  pub rest : c' ≡ record c { repair = c'.repair }
  pub views : (vm : Text) → view c' vm ≡ view c vm
  pub targets : (repair_state c').target ≡ (repair_state c).target
  pub actions : (repair_state c').action ≡ (repair_state c).action

count_views : (Text → NodeRepairState) → List Node → ℕ
count_views v [] = 0
count_views v (n ∷ ns) =
    let others = count_views v ns in if is_some (v n.vm_name).fault then suc others else others

count_faulty-views :
    (nodes : Dict NodeRepairState) (ns : List Node)
    → count_faulty nodes ns ≡ count_views (λ vm. or_no_state (get nodes vm)) ns
unfolding count_faulty count_views
count_faulty-views nodes [] = refl
count_faulty-views nodes (n ∷ ns) = ground (arith, count_faulty-views nodes ns)

count_no_views : (ns : List Node) → 0 ≡ count_views (λ vm. no_state) ns
unfolding count_views
count_no_views [] = refl
count_no_views (n ∷ ns) = count_no_views ns

view_of : Option ClusterRepair → Text → NodeRepairState
view_of o vm = or_no_state (get (or_no_repair o).nodes vm)

faulty_in-views :
    (o : Option ClusterRepair) (ns : List Node) → faulty_in o ns ≡ count_views (view_of o) ns
unfolding faulty_in view_of get empty
faulty_in-views none ns = count_no_views ns
faulty_in-views (some r) ns = count_faulty-views r.nodes ns

view-eq : (c : Cluster) → view_of c.repair ≡ view c
unfolding view view_of repair_state
view-eq c = refl

pub faulty_planes-SameView : (c c' : Cluster) → SameView c c' → faulty_planes c' ≡ faulty_planes c
unfolding faulty_planes control_planes_of view view_of count_views repair_state
faulty_planes-SameView c c' s =
    faulty_in-views c'.repair (control_planes_of c')
    ∙ ap (λ (v : Text → NodeRepairState). count_views v (control_planes_of c')) (fun_ext s.views)
    ∙ ap (λ (k : Cluster). count_views (view c) (control_planes_of k)) s.rest
    ∙ sym (faulty_in-views c.repair (control_planes_of c))

-- the lookup of a node's state
pub node_state-SameView : (c : Cluster) (vm : Text) → SameView c (node_state c vm).0
unfolding node_state view repair_state
node_state-SameView c vm = record {
  rest = refl;
  views = λ j. rw get-state (same_read j);
  targets = refl;
  actions = refl;
}
  where
    same_read :
        (j : Text)
        → or_no_state (
            if text_eq vm j
            then some (or_no_state (get (repair_state c).nodes vm))
            else get (repair_state c).nodes j)
          ≡ or_no_state (get (repair_state c).nodes j)
    same_read j = elim (Bool-cases (text_eq vm j)) [
      | inl same ↦ rw ((text_eq_iff vm j).0 same) (rw text_eq_refl refl)
      | inr other ↦ rw other refl
    ]

pub node_state_lem : (c : Cluster) (vm : Text) → (node_state c vm).1 ≡ view c vm
unfolding node_state view repair_state
node_state_lem c vm = state_lem (repair_state c).nodes vm

pub SameView-trans : (a b c : Cluster) → SameView a b → SameView b c → SameView a c
SameView-trans a b c s t = record {
  rest = t.rest ∙ ap (λ (k : Cluster). record k { repair = c.repair }) s.rest;
  views = λ vm. t.views vm ∙ s.views vm;
  targets = t.targets ∙ s.targets;
  actions = t.actions ∙ s.actions;
}

module _ {F : Type 0} (p : RepairPolicy F) where
  destructive_action-repair :
      (c : Cluster) (r : Option ClusterRepair) (n : Node) (elapsed : Duration)
      → faulty_planes (record c { repair = r }) ≡ faulty_planes c
      → destructive_action p (record c { repair = r }) n elapsed ≡ destructive_action p c n elapsed
  unfolding destructive_action ha control_plane_count
  destructive_action-repair c r n elapsed h = rw h refl

  next_action-repair :
      (c : Cluster) (r : Option ClusterRepair) (n : Node) (st : NodeRepairState) (f : NodeFault)
      (now : Time)
      → faulty_planes (record c { repair = r }) ≡ faulty_planes c
      → next_action p (record c { repair = r }) n st f now ≡ next_action p c n st f now
  unfolding next_action
  next_action-repair c r n st f now h = by_since st.unhealthy_since refl
    where
      by_since :
          (o : Option Time)
          → st.unhealthy_since ≡ o
          → next_action p (record c { repair = r }) n st f now ≡ next_action p c n st f now
      by_since none e = ground arith
      by_since (some t) e = ground (arith, destructive_action-repair c r n (sub now t) h)

  pub next_action-SameView :
      (c c' : Cluster) (n : Node) (st : NodeRepairState) (f : NodeFault) (now : Time)
      → SameView c c'
      → next_action p c' n st f now ≡ next_action p c n st f now
  next_action-SameView c c' n st f now s =
      ap (λ (k : Cluster). next_action p k n st f now) s.rest
      ∙ next_action-repair c c'.repair n st f now
          (ap faulty_planes (sym s.rest) ∙ faulty_planes-SameView c c' s)

pub SameView-refl : (c : Cluster) → SameView c c
SameView-refl c = record { rest = refl; views = λ vm. refl; targets = refl; actions = refl }
