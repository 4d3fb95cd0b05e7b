-- ===== src/Upgrade/Status.antt =====
-- The texts of upgradeStatus and of EKS's update status, the labels of the metrics, and the
-- assignments to status fields.
use eks_ami_operator.Base.{Bool, true, String, List, [], ◌∷◌, if◌then◌else◌, Option}
use eks_ami_operator.Go.Time.{is_zero, sub}
use eks_ami_operator.Go.Error.{Error}
use eks_ami_operator.Api.{Policy, Status}
use eks_ami_operator.Metrics.{
  Value, number, seconds, update_status, update_inflight_seconds, compliance_status,
  upgrade_attempts,
}
use eks_ami_operator.World.{Env, M, ◌>>=◌, ◌>>◌, pure, set_gauge, inc_counter}
use eks_ami_operator.World.Clock.{now}
use eks_ami_operator.World.Kube

-- UpgradeStatusFailed, UpgradeStatusInProgress, UpgradeStatusSucceeded, UpgradeStatusOutdated,
-- UpgradeStatusSkipped
abbrev pub upgrade_status_failed : String
upgrade_status_failed = "Failed"

abbrev pub upgrade_status_in_progress : String
upgrade_status_in_progress = "InProgress"

abbrev pub upgrade_status_succeeded : String
upgrade_status_succeeded = "Succeeded"

abbrev pub upgrade_status_outdated : String
upgrade_status_outdated = "Outdated"

abbrev pub upgrade_status_skipped : String
upgrade_status_skipped = "Skipped"

-- eks/types.UpdateStatus
abbrev pub eks_in_progress : String
eks_in_progress = "InProgress"

abbrev pub eks_successful : String
eks_successful = "Successful"

abbrev pub eks_failed : String
eks_failed = "Failed"

abbrev pub eks_cancelled : String
eks_cancelled = "Cancelled"

-- WithLabelValues(policy.Spec.ClusterName, policy.Spec.NodeGroupName), and with one label more
abbrev pub labels : Policy → List String
labels p = p.spec.cluster_name ∷ p.spec.node_group_name ∷ []

abbrev pub labels_with : Policy → String → List String
labels_with p x = p.spec.cluster_name ∷ p.spec.node_group_name ∷ x ∷ []

abbrev pub set_upgrade_status : String → Status → Status
set_upgrade_status x s = record s { upgrade_status = x }

-- metrics.UpdateStatus…Set(1) and metrics.UpdateInflightSeconds…Set(0)
abbrev pub set_lifecycle : Policy → String → M (Unit {0})
set_lifecycle p status = set_gauge update_status (labels_with p status) (number 1)

abbrev pub clear_inflight : Policy → M (Unit {0})
clear_inflight p = set_gauge update_inflight_seconds (labels p) (number 0)

abbrev pub set_compliance : Policy → Value → M (Unit {0})
set_compliance p x = set_gauge compliance_status (labels p) x

abbrev pub count_attempt : Policy → String → M (Unit {0})
count_attempt p result = inc_counter upgrade_attempts (labels_with p result)

module _ (env : Env) where
  -- The metrics of an update that is still running; the same lines stand three times in
  -- trackInFlightUpdate.
  abbrev pub mark_running : Policy → M (Unit {0})
  mark_running p = do
    set_lifecycle p "in_progress"
    (if is_zero p.status.last_upgrade_attempt then pure tt else (do
      t ← now env
      set_gauge update_inflight_seconds (labels p) (seconds (sub t p.status.last_upgrade_attempt))))

  -- `return true, c.Status().Update(ctx, policy)`
  abbrev pub handled : M (Bool × Option Error)
  handled = do e ← Kube.update_status env; pure (true, e)
