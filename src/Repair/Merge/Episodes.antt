-- ===== src/Repair/Merge/Episodes.antt =====
-- Fault episodes over several merges: when a clock and a count of attempts go on.
use kaa_s_demo.Prelude.{◌≤◌, ◌<◌, true, Option, none, some, Text, ◌≡◌, ◌≢◌, ◌∙◌, ap, arith}
use kaa_s_demo.Prelude.Int.{◌≤ℤ◌}
use kaa_s_demo.Prelude.Dict.{Dict, get}
use kaa_s_demo.Go.Time.{sub_mono, Time, sub}
use kaa_s_demo.Prelude.{List, [], ◌∷◌, ◌++◌, refl}
use kaa_s_demo.Prelude.Any.{All}
use kaa_s_demo.Domain.Node.{Node}
use kaa_s_demo.Domain.Observed.{NodeFault, vm_down, power_on, NodeRepairState, ClusterRepair}
use kaa_s_demo.Domain.Cluster.{Cluster}
use kaa_s_demo.Repair.{RepairPolicy, or_no_state}
use kaa_s_demo.Repair.Action.{next_action}
use kaa_s_demo.Repair.Observe.Faults.{has_vm}
use kaa_s_demo.Repair.Merge.{merged, merge_faults, flap_window, recovered_state}
use kaa_s_demo.Repair.Merge.Pointwise.{get-merge_faults}

module _ {F : Type 0} (p : RepairPolicy F) (c : Cluster) (vm : Text) where
  entry_after :
      (r : ClusterRepair) (now : Time) (faults : Dict NodeFault) (f : Option NodeFault)
      (o : Option NodeRepairState)
      → has_vm c.nodes vm ≡ true
      → get faults vm ≡ f
      → get r.nodes vm ≡ o
      → get (merge_faults r c faults p now).nodes vm ≡ merged p now f (or_no_state o)
  entry_after r now faults f o live found entry =
      get-merge_faults p now faults r c vm
      ∙ rw live (
          ap (λ (g : Option NodeFault). merged p now g (or_no_state (get r.nodes vm))) found
          ∙ ap (λ (e : Option NodeRepairState). merged p now f (or_no_state e)) entry)

  -- A fault that goes on keeps its whole state, its clock included.
  pub continuing_fault :
      (r : ClusterRepair) (now since : Time) (faults : Dict NodeFault) (f : NodeFault)
      (st : NodeRepairState)
      → has_vm c.nodes vm ≡ true
      → get faults vm ≡ some f
      → get r.nodes vm ≡ some st
      → st.fault ≡ some f
      → st.unhealthy_since ≡ some since
      → get (merge_faults r c faults p now).nodes vm ≡ some st
  continuing_fault r now since faults f st live found entry same timed =
      entry_after r now faults (some f) (some st) live found entry ∙ unfold merged in ground arith

  -- The platform's documentation says that a suspended node is not touched again until it
  -- recovers or a human intervenes. But when the fault of a suspended node changes its class, to
  -- its VM being down, its suspension and its attempts are forgotten, and it is powered on at once.
  pub suspended_resumes :
      (r : ClusterRepair) (now : Time) (faults : Dict NodeFault) (f : NodeFault)
      (st : NodeRepairState) (n : Node)
      → has_vm c.nodes vm ≡ true
      → get faults vm ≡ some vm_down
      → get r.nodes vm ≡ some st
      → st.suspended ≡ true
      → st.fault ≡ some f
      → f ≢ vm_down
      → st.repaired_at ≡ none
      → 0 < p.max_attempts
      → (next_action p c n
          (or_no_state (get (merge_faults r c faults p now).nodes vm))
          vm_down
          now).0
        ≡ some power_on
  suspended_resumes r now faults f st n live found entry halted failed other never some_left =
      ap (λ (o : Option NodeRepairState). (next_action p c n (or_no_state o) vm_down now).0)
        (entry_after r now faults (some vm_down) (some st) live found entry)
      ∙ again
    where
      again :
          (next_action p c n (or_no_state (merged p now (some vm_down) st)) vm_down now).0
          ≡ some power_on
      again = unfold next_action merged in ground arith

-- what one tick observes: the cluster, the time and the faults
pub record Look : Type 0 where
  pub cluster : Cluster
  pub at : Time
  pub faults : Dict NodeFault

module _ {F : Type 0} (p : RepairPolicy F) where
  -- the merges of several ticks, in order
  unfoldable pub merge_all : ClusterRepair → List Look → ClusterRepair
  merge_all r [] = r
  merge_all r (l ∷ ls) = merge_all (merge_faults r l.cluster l.faults p l.at) ls

  merge_all-append :
      (r : ClusterRepair) (ks ls : List Look)
      → merge_all r (ks ++ ls) ≡ merge_all (merge_all r ks) ls
  unfolding merge_all
  merge_all-append r [] ls = refl
  merge_all-append r (k ∷ ks) ls = merge_all-append (merge_faults r k.cluster k.faults p k.at) ks ls

  merged_young :
      (now t : Time) (st : NodeRepairState)
      → sub now t ≤ℤ flap_window p
      → st.fault ≡ none
      → st.repaired_at ≡ some t
      → merged p now none st ≡ some st
  unfolding merged
  merged_young now t st soon sound since = ground arith

  module _ (vm : Text) (until : Time) where
    -- the VM is a node without a fault, at a time that is not past `until`
    abbrev pub IsWell : Look → Type 0
    IsWell l = (has_vm l.cluster.nodes vm ≡ true) × (get l.faults vm ≡ none) × (l.at ≤ until)

    -- what is observed of a healthy node within the flap window leaves its state alone
    stays_recovered :
        (r : ClusterRepair) (ls : List Look) (t : Time) (st : NodeRepairState)
        → All IsWell ls
        → sub until t ≤ℤ flap_window p
        → get r.nodes vm ≡ some st
        → st.fault ≡ none
        → st.repaired_at ≡ some t
        → get (merge_all r ls).nodes vm ≡ some st
    unfolding merge_all
    stays_recovered r [] t st well soon entry sound since = entry
    stays_recovered r (l ∷ ls) t st ((live, none_, early), well) soon entry sound since =
        stays_recovered (merge_faults r l.cluster l.faults p l.at) ls t st well soon kept sound
          since
      where
        young : sub l.at t ≤ℤ flap_window p
        young = ground (arith, sub_mono l.at until t early)

        kept : get (merge_faults r l.cluster l.faults p l.at).nodes vm ≡ some st
        kept =
            entry_after p l.cluster vm r l.at l.faults none (some st) live none_ entry
            ∙ merged_young l.at t st young sound since

  -- A node that recovers, is then observed healthy any number of times, and fails again within the
  -- flap window of its recovery goes on with the attempts that it had: recovery gives it no fresh
  -- ones. It is a node of the cluster all along, and none of the healthy observations is made after
  -- the failure.
  pub flapping_escalates :
      (vm : Text) (r : ClusterRepair) (recovery failure : Look) (between : List Look)
      (f g : NodeFault) (st : NodeRepairState)
      → get r.nodes vm ≡ some st
      → st.fault ≡ some f
      → has_vm recovery.cluster.nodes vm ≡ true
      → get recovery.faults vm ≡ none
      → All (IsWell vm failure.at) between
      → has_vm failure.cluster.nodes vm ≡ true
      → get failure.faults vm ≡ some g
      → sub failure.at recovery.at ≤ℤ flap_window p
      → (or_no_state (get (merge_all r (recovery ∷ between ++ failure ∷ [])).nodes vm)).attempts
        ≡ st.attempts
  unfolding merge_all recovered_state
  flapping_escalates vm r recovery failure between f g st entry failed here well between_well there
        found soon =
      ap (λ (o : Option NodeRepairState). (or_no_state o).attempts)
        (ap (λ (m : ClusterRepair). get m.nodes vm) (merge_all-append r' between (failure ∷ []))
          ∙ entry_after p failure.cluster vm (merge_all r' between) failure.at failure.faults
              (some g) (some (recovered_state recovery.at st)) there found
              (stays_recovered vm failure.at r' between recovery.at (recovered_state recovery.at st)
                between_well soon once refl refl))
      ∙ carried
    where
      r' : ClusterRepair
      r' = merge_faults r recovery.cluster recovery.faults p recovery.at

      once : get r'.nodes vm ≡ some (recovered_state recovery.at st)
      once =
          entry_after p recovery.cluster vm r recovery.at recovery.faults none (some st) here well
            entry
          ∙ unfold merged in ground arith

      carried :
          (or_no_state (merged p failure.at (some g) (recovered_state recovery.at st))).attempts
          ≡ st.attempts
      carried = unfold merged in ground arith
