-- ===== src/Repair/Action/Ladder.antt =====
-- Exactly when a rung of the ladder is taken.
use kaa_s_demo.Prelude.{Option, ◌<◌, ◌≤◌, ◌≡◌, ◌⊎◌, ◌↔◌, true, false, some, none, refl, arith}
use kaa_s_demo.Prelude.Int.{◌≤ℤ◌}
use kaa_s_demo.Go.Time.{Time, Duration, sub}
use kaa_s_demo.Domain.Phase.{is_control_plane}
use kaa_s_demo.Domain.Node.{Node}
use kaa_s_demo.Domain.Observed.{
  NodeFault, not_ready, missing, vm_down, RepairAction, power_on, rejoin, restart_kubelet, replace,
  restore, NodeRepairState,
}
use kaa_s_demo.Domain.Cluster.{Cluster, ha, control_plane_count}
use kaa_s_demo.Repair.{RepairPolicy}
use kaa_s_demo.Repair.Action.{
  next_action, ladder, destructive_action, cheap_action, in_backoff, members_short, faulty_planes,
}

module _ {F : Type 0} (p : RepairPolicy F) (c : Cluster) (n : Node) where
  -- rebuilding this node cannot cost the cluster its quorum
  abbrev pub QuorumSafe : Type 0
  QuorumSafe =
      (is_control_plane n.role ≡ false)
      ⊎ ((ha c ≡ true)
          × (members_short c.etcd (control_plane_count c) ≡ false)
          × (faulty_planes c ≤ 1))

  -- the conditions of each action, as the policy's documentation has them
  abbrev pub Allowed : NodeRepairState → NodeFault → Duration → RepairAction → Type 0
  Allowed st fault elapsed power_on = (fault ≡ vm_down) × (st.attempts ≡ 0)
  Allowed st fault elapsed rejoin =
      (fault ≡ missing) × (st.attempts ≡ 0) × (p.node_startup_grace ≤ℤ elapsed)
  Allowed st fault elapsed restart_kubelet =
      (fault ≡ not_ready) × (st.attempts ≡ 0) × (p.not_ready_grace ≤ℤ elapsed)
  Allowed st fault elapsed replace =
      (0 < st.attempts) × (p.replace ≡ true) × (p.replace_after ≤ℤ elapsed) × QuorumSafe
  Allowed st fault elapsed restore =
      (0 < st.attempts)
      × (p.replace ≡ true)
      × (p.restore ≡ true)
      × (p.replace_after ≤ℤ elapsed)
      × (is_control_plane n.role ≡ true)
      × (ha c ≡ false)

  cheap_only :
      (st : NodeRepairState) (fault : NodeFault) (elapsed : Duration) (a : RepairAction)
      → st.attempts ≡ 0
      → ((cheap_action p fault elapsed).0 ≡ some a) ↔ Allowed st fault elapsed a
  unfolding cheap_action
  cheap_only st vm_down elapsed power_on h = (λ e. ground arith, λ e. ground arith)
  cheap_only st fault elapsed a h = (λ e. ground arith, λ e. ground arith)

  destructive_only :
      (st : NodeRepairState) (fault : NodeFault) (elapsed : Duration) (a : RepairAction)
      → 0 < st.attempts
      → p.replace_after ≤ℤ elapsed
      → ((destructive_action p c n elapsed).0 ≡ some a) ↔ Allowed st fault elapsed a
  unfolding destructive_action
  destructive_only st fault elapsed power_on h k = (λ e. ground arith, λ e. ground arith)
  destructive_only st fault elapsed a h k = (λ e. ground arith, λ e. ground arith)

  ladder_only :
      (st : NodeRepairState) (fault : NodeFault) (elapsed : Duration) (a : RepairAction)
      → ((ladder p c n st fault elapsed).0 ≡ some a) ↔ Allowed st fault elapsed a
  unfolding ladder
  ladder_only st fault elapsed power_on = (
    λ e.
        ground
          (arith, cheap_only st fault elapsed power_on, destructive_only st fault elapsed power_on),
    λ e.
        ground
          (arith, cheap_only st fault elapsed power_on, destructive_only st fault elapsed power_on),
  )
  ladder_only st fault elapsed a = (
    λ e. ground (arith, cheap_only st fault elapsed a, destructive_only st fault elapsed a),
    λ e. ground (arith, cheap_only st fault elapsed a, destructive_only st fault elapsed a),
  )

  -- the node may be acted on at all
  pub record IsDue (st : NodeRepairState) (now : Time) : Type 0 where
    pub not_suspended : st.suspended ≡ false
    pub attempts_left : st.attempts < p.max_attempts
    pub waited : in_backoff p st now ≡ false
    pub since : Time
    pub timestamped : st.unhealthy_since ≡ some since

  -- The policy takes the action `a` on a faulty node exactly when the node is not suspended, has
  -- attempts left, is out of its backoff and has a timestamped fault, and the conditions of that
  -- action hold for the time since then: the cheap rung that fits the fault, on a first attempt and
  -- past its grace; or, after an attempt and past `replace_after`, a rebuild that is enabled and
  -- safe for the quorum, or a restore of a sole control plane if both are enabled.
  pub next_action_iff :
      (st : NodeRepairState) (fault : NodeFault) (now : Time) (a : RepairAction)
      → ((next_action p c n st fault now).0 ≡ some a)
        ↔ ((due : IsDue st now) × Allowed st fault (sub now due.since) a)
  unfolding next_action
  next_action_iff st fault now a = (to st.unhealthy_since refl, from)
    where
      to :
          (o : Option Time)
          → st.unhealthy_since ≡ o
          → (next_action p c n st fault now).0 ≡ some a
          → (due : IsDue st now) × Allowed st fault (sub now due.since) a
      to none e h = absurd (ground arith)
      to (some t) e h = (
        record {
          not_suspended = ground arith;
          attempts_left = ground arith;
          waited = ground arith;
          since = t;
          timestamped = e;
        },
        (ladder_only st fault (sub now t) a).0 (ground arith),
      )

      from :
          (due : IsDue st now) × Allowed st fault (sub now due.since) a
          → (next_action p c n st fault now).0 ≡ some a
      from (due, allowed) = ground (
        arith,
        due.not_suspended,
        due.attempts_left,
        due.waited,
        due.timestamped,
        (ladder_only st fault (sub now due.since) a).1 allowed,
      )
