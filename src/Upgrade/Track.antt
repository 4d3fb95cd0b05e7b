-- ===== src/Upgrade/Track.antt =====
-- Polling an update that is in flight: trackInFlightUpdate and setTerminalFailure of
-- internal/upgrade/upgrade.go.
use eks_ami_operator.Base.{Bool, false, not, ◌||◌, String, str_eq, [], if◌then◌else◌, Option, none}
use eks_ami_operator.Go.Error.{Error, Result, ok, err}
use eks_ami_operator.Api.{Policy, Status}
use eks_ami_operator.Metrics.{number}
use eks_ami_operator.World.{Config, Env, M, ◌>>=◌, ◌>>◌, pure, policy, set_status}
use eks_ami_operator.World.Clock.{now}
use eks_ami_operator.Aws.{UpdateOutcome, describe_nodegroup_update}
use eks_ami_operator.Upgrade.Status.{
  upgrade_status_failed, upgrade_status_in_progress, upgrade_status_succeeded, eks_in_progress,
  eks_successful, eks_failed, eks_cancelled, set_lifecycle, clear_inflight, set_compliance,
  count_attempt, mark_running, handled,
}

-- The test at the head of trackInFlightUpdate.
abbrev pub is_tracked : Status → Bool
is_tracked s =
    not (not (str_eq s.upgrade_status upgrade_status_in_progress) || str_eq s.update_id "")

module _ (env : Env) where
  -- setTerminalFailure
  unfoldable pub set_terminal_failure : Policy → UpdateOutcome → String → M (Bool × Option Error)
  set_terminal_failure p o lifecycle_status = do
    set_status (λ s. record s { upgrade_status = upgrade_status_failed; update_errors = o.errors })
    set_compliance p (number 0)
    count_attempt p "failed"
    set_lifecycle p lifecycle_status
    clear_inflight p
    handled env

  -- The case of UpdateStatusSuccessful.
  unfoldable pub set_terminal_success : Policy → M (Bool × Option Error)
  set_terminal_success p = do
    set_status (λ s. record s { upgrade_status = upgrade_status_succeeded; update_errors = [] })
    set_compliance p (number 1)
    set_lifecycle p "successful"
    clear_inflight p
    handled env

  -- The cases that leave the update in flight: a read that failed, InProgress, and the default.
  unfoldable pub keep_in_flight : Policy → M (Bool × Option Error)
  keep_in_flight p = do mark_running env p; handled env

  -- The switch on outcome.Status.
  unfoldable pub on_status : Policy → UpdateOutcome → M (Bool × Option Error)
  on_status p o =
      if str_eq o.status eks_in_progress
      then keep_in_flight p
      else if str_eq o.status eks_successful
      then set_terminal_success p
      else if str_eq o.status eks_failed
      then set_terminal_failure p o "failed"
      else if str_eq o.status eks_cancelled
      then set_terminal_failure p o "cancelled"
      else keep_in_flight p

  -- What follows DescribeNodegroupUpdate.
  unfoldable pub on_outcome : Policy → Result UpdateOutcome → M (Bool × Option Error)
  on_outcome p (err _) = keep_in_flight p
  on_outcome p (ok o) = do
    t ← now env
    set_status (λ s. record s { update_status = o.status; last_progress_check = t })
    on_status p o

  -- trackInFlightUpdate: whether it handled the policy, and its error.
  unfoldable pub track_in_flight_update : Config → M (Bool × Option Error)
  track_in_flight_update eks = do
    p ← policy
    (if not (is_tracked p.status) then pure (false, none) else (do
      o ←
          describe_nodegroup_update env eks p.spec.cluster_name p.spec.node_group_name
            p.status.update_id
      on_outcome p o))
