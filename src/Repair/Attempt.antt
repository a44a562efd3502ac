-- ===== src/Repair/Attempt.antt =====
-- internal/domain/repair.go: RecordAttempt, before a repair runs, and CompleteAttempt after it.
use kaa_s_demo.Prelude.{◌+◌, true, none, some, [], leb, if◌then◌else◌}
use kaa_s_demo.Prelude.Dict.{put}
use kaa_s_demo.Go.Time.{Time}
use kaa_s_demo.Domain.Observed.{attempted, gave_up, NodeRepairState, ClusterRepair}
use kaa_s_demo.Repair.{RepairPolicy, RepairPlan, state}

module _ {F : Type 0} where
  -- the state of a node once an attempt on it is stamped
  unfoldable pub attempted_state :
      RepairPlan → RepairPolicy F → Time → NodeRepairState → NodeRepairState
  attempted_state plan p now st =
      let attempts = st.attempts + 1 in
      let stamped = record st {
        attempts = attempts;
        last_action = plan.action;
        last_action_at = some now;
        note = some (attempted plan.action attempts p.max_attempts);
      } in
      if leb p.max_attempts attempts
      then record stamped {
        suspended = true;
        note = some (gave_up plan.action plan.target attempts);
      }
      else stamped

  unfoldable pub record_attempt : ClusterRepair → RepairPlan → RepairPolicy F → Time → ClusterRepair
  unfolding state attempted_state
  record_attempt r plan p now =
      let (nodes, st) = state r.nodes plan.target in
      record r {
        nodes = put nodes plan.target (attempted_state plan p now st);
        target = plan.target;
        action = plan.action;
      }

unfoldable pub complete_attempt : ClusterRepair → ClusterRepair
complete_attempt r = record r { target = []; action = none }
