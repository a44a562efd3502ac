-- ===== src/Repair/Action.antt =====
-- internal/domain/repair.go: the rung that one faulty node is due for (nextAction,
-- destructiveAction, backoffFor).
pub mod Backoff
pub mod Ladder
use kaa_s_demo.Prelude.{
  ℕ, zero, suc, ◌-◌, Bool, true, false, not, ◌&&◌, Option, none, some, List, [], ◌∷◌, ltb, leb,
  ◌==◌, if◌then◌else◌,
}
use kaa_s_demo.Prelude.Int.{ℤ, pos, leb_ℤ, ltb_ℤ}
use kaa_s_demo.Prelude.Dict.{Dict, get}
use kaa_s_demo.Prelude.Keys.{is_some}
use kaa_s_demo.Go.Int64.{mul64, sub64}
use kaa_s_demo.Go.Time.{Time, Duration, day, sub}
use kaa_s_demo.Domain.Phase.{is_control_plane}
use kaa_s_demo.Domain.Node.{Node}
use kaa_s_demo.Domain.Observed.{
  ClusterRepair, EtcdStatus, NodeFault, not_ready, missing, vm_down, RepairAction, power_on, rejoin,
  restart_kubelet, replace, restore, NodeRepairState,
}
use kaa_s_demo.Domain.Cluster.{Cluster, control_plane_count, ha, control_planes_of}
use kaa_s_demo.Repair.{
  RepairPolicy, Reason, suspended, exhausted, backing_off, not_timestamped, powering_on,
  startup_grace, ready_grace, rejoining, restarting, rebuilding, restoring, rebuilding_plane,
  waiting, replace_disabled, restore_disabled, members_unreachable, planes_faulty,
}

-- for i := 1; i < attempts && d < 24*time.Hour; i++ { d *= 2 }, with the rounds that are left
double_below_day : ℕ → Duration → Duration
double_below_day zero d = d
double_below_day (suc k) d = elim (ltb_ℤ d day) [
  | true ↦ double_below_day k (mul64 d (pos 2))
  | false ↦ d
]

abbrev at_most_day : Duration → Duration
at_most_day d = if ltb_ℤ day d then day else d

-- A faulty node's state says which fault; a node without an entry has none.
abbrev pub is_faulty : Option NodeRepairState → Bool
is_faulty none = false
is_faulty (some s) = is_some s.fault

unfoldable pub count_faulty : Dict NodeRepairState → List Node → ℕ
count_faulty nodes [] = 0
count_faulty nodes (n ∷ ns) =
    let rest = count_faulty nodes ns in if is_faulty (get nodes n.vm_name) then suc rest else rest

-- c.Etcd != nil && c.Etcd.Members > 0 && c.Etcd.Members < c.ControlPlaneCount()
abbrev pub members_short : Option EtcdStatus → ℤ → Bool
members_short none planes = false
members_short (some e) planes = ltb_ℤ (pos 0) e.members && ltb_ℤ e.members planes

abbrev members_of : Option EtcdStatus → ℤ
members_of none = pos 0
members_of (some e) = e.members

unfoldable pub faulty_in : Option ClusterRepair → List Node → ℕ
unfolding count_faulty
faulty_in none planes = 0
faulty_in (some r) planes = count_faulty r.nodes planes

-- the faulty control planes, as the cluster's repair state has them
unfoldable pub faulty_planes : Cluster → ℕ
unfolding faulty_in
faulty_planes c = faulty_in c.repair (control_planes_of c)

-- An action of "" is `none`.
abbrev pub Verdict : Type 0 → Type 0
Verdict F = Option RepairAction × Reason F

module _ {F : Type 0} where
  unfoldable pub backoff_for : RepairPolicy F → ℕ → Duration
  unfolding double_below_day
  backoff_for p attempts =
      if leb_ℤ p.backoff (pos 0)
      then pos 0
      else if attempts == 0
      then pos 0
      else at_most_day (double_below_day (attempts - 1) p.backoff)

  unfoldable pub destructive_action : RepairPolicy F → Cluster → Node → Duration → Verdict F
  destructive_action p c n elapsed =
      if not p.replace
      then (none, replace_disabled)
      else if not (is_control_plane n.role)
      then (some replace, rebuilding elapsed)
      else if not (ha c)
      then (if not p.restore then (none, restore_disabled) else (some restore, restoring elapsed))
      else if members_short c.etcd (control_plane_count c)
      then (none, members_unreachable (members_of c.etcd) (control_plane_count c))
      else if ltb 1 (faulty_planes c)
      then (none, planes_faulty (faulty_planes c) (control_plane_count c))
      else (some replace, rebuilding_plane elapsed)

  -- the rung of a first attempt
  unfoldable pub cheap_action : RepairPolicy F → NodeFault → Duration → Verdict F
  cheap_action p vm_down elapsed = (some power_on, powering_on)
  cheap_action p missing elapsed =
      if ltb_ℤ elapsed p.node_startup_grace
      then (none, startup_grace p.node_startup_grace elapsed)
      else (some rejoin, rejoining elapsed)
  cheap_action p not_ready elapsed =
      if ltb_ℤ elapsed p.not_ready_grace
      then (none, ready_grace p.not_ready_grace elapsed)
      else (some restart_kubelet, restarting elapsed)

  -- the choice of the rung, once the fault is timestamped
  unfoldable pub ladder :
      RepairPolicy F → Cluster → Node → NodeRepairState → NodeFault → Duration → Verdict F
  unfolding cheap_action destructive_action
  ladder p c n st fault elapsed =
      if st.attempts == 0
      then cheap_action p fault elapsed
      else if ltb_ℤ elapsed p.replace_after
      then (none, waiting st.last_action p.replace_after elapsed)
      else destructive_action p c n elapsed

  -- st.LastActionAt != nil && now.Sub(*st.LastActionAt) < backoffFor(st.Attempts)
  unfoldable pub in_backoff : RepairPolicy F → NodeRepairState → Time → Bool
  in_backoff p st now = elim st.last_action_at [
    | none ↦ false
    | some t ↦ ltb_ℤ (sub now t) (backoff_for p st.attempts)
  ]

  backoff_left : RepairPolicy F → NodeRepairState → Time → Duration
  backoff_left p st now = elim st.last_action_at [
    | none ↦ pos 0
    | some t ↦ sub64 (backoff_for p st.attempts) (sub now t)
  ]

  unfoldable pub next_action :
      RepairPolicy F → Cluster → Node → NodeRepairState → NodeFault → Time → Verdict F
  unfolding ladder in_backoff backoff_left
  next_action p c n st fault now =
      if st.suspended
      then (none, suspended st.attempts)
      else if leb p.max_attempts st.attempts
      then (none, exhausted st.attempts)
      else if in_backoff p st now
      then (none, backing_off (backoff_left p st now) st.last_action)
      else elim st.unhealthy_since [
        | none ↦ (none, not_timestamped)
        | some since ↦ ladder p c n st fault (sub now since)
      ]
