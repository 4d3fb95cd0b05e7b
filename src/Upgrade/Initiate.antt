-- ===== src/Upgrade/Initiate.antt =====
-- Deciding compliance and starting an update: handleNotInFlight, stampNextCronWindow and
-- ProcessUpgrade of internal/upgrade/upgrade.go.
use eks_ami_operator.Base.{
  ◌*◌, Bool, true, false, not, ◌&&◌, String, str_eq, [], ◌∷◌, if◌then◌else◌, Option,
}
use eks_ami_operator.Base.Int.{ℤ, pos, leb_ℤ}
use eks_ami_operator.Go.Time.{second, add}
use eks_ami_operator.Go.Text.{trim_space}
use eks_ami_operator.Go.Error.{Error, Result, ok, err}
use eks_ami_operator.Api.{Policy}
use eks_ami_operator.Metrics.{number, unix, outdated_node_groups, last_checked_timestamp}
use eks_ami_operator.World.{
  Config, Env, M, ◌>>=◌, ◌>>◌, pure, policy, set_status, set_gauge, inc_counter,
}
use eks_ami_operator.World.Clock.{now}
use eks_ami_operator.World.Kube
use eks_ami_operator.World.Sdk
use eks_ami_operator.Scheduler.{next_run, reason_cron}
use eks_ami_operator.Upgrade.Status.{
  upgrade_status_failed, upgrade_status_in_progress, upgrade_status_succeeded,
  upgrade_status_skipped, eks_in_progress, labels, set_upgrade_status, set_lifecycle,
  clear_inflight, set_compliance, count_attempt,
}
use eks_ami_operator.Upgrade.Track.{track_in_flight_update}

-- The delay behind `late tolerance` that computeNextDelay and stampNextCronWindow add to the clock.
abbrev pub nudge : ℤ
nudge = pos (6 * second)

module _ (env : Env) where
  -- stampNextCronWindow
  unfoldable pub stamp_next_cron_window : M (Unit {0})
  stamp_next_cron_window = do
    p ← policy
    (if str_eq (trim_space p.spec.schedule_cron) "" then pure tt else (do
      t ← now env
      let n = next_run env.calendar (add t nudge) p.status.last_checked p
      (if str_eq n.reason reason_cron && not (leb_ℤ n.delay (pos 0))
          then set_status (λ s. record s { next_scheduled_time = add t n.delay })
          else pure tt)))

  -- The branch `currentRelease == latestRelease`.
  unfoldable pub set_compliant : Policy → M (Option Error)
  set_compliant p = do
    set_status (set_upgrade_status upgrade_status_succeeded)
    set_compliance p (number 1)
    set_gauge outdated_node_groups (p.spec.cluster_name ∷ []) (number 0)
    set_lifecycle p "idle"
    clear_inflight p
    Kube.update_status env

  -- The branch `!policy.Spec.AutoUpgrade`.
  unfoldable pub set_skipped : Policy → M (Option Error)
  set_skipped p = do
    set_status (set_upgrade_status upgrade_status_skipped)
    count_attempt p "skipped"
    set_lifecycle p "idle"
    clear_inflight p
    Kube.update_status env

  -- What follows UpdateNodegroupVersion.
  unfoldable pub on_initiation : Policy → Result (Option String) → M (Option Error)
  on_initiation p (err _) = do
    set_status (set_upgrade_status upgrade_status_failed)
    count_attempt p "failed"
    set_lifecycle p "failed"
    clear_inflight p
    Kube.update_status env
  on_initiation p (ok id) = do
    set_status (λ s. record s {
      upgrade_status = upgrade_status_in_progress;
      update_id = env.to_string id;
      update_status = eks_in_progress;
    })
    count_attempt p "success"
    set_lifecycle p "in_progress"
    clear_inflight p
    stamp_next_cron_window
    Kube.update_status env

  -- The part of handleNotInFlight that starts the update.
  unfoldable pub initiate : Policy → Config → String → M (Option Error)
  initiate p eks latest_release = do
    upd ←
        Sdk.update_nodegroup_version env eks p.spec.cluster_name p.spec.node_group_name
          latest_release
    t ← now env
    set_status (λ s. record s { last_upgrade_attempt = t })
    on_initiation p upd

  -- handleNotInFlight
  unfoldable pub handle_not_in_flight : Config → String → String → M (Option Error)
  handle_not_in_flight eks current_release latest_release = do
    p ← policy
    (if str_eq current_release latest_release then set_compliant p else (do
      set_compliance p (number 0)
      inc_counter outdated_node_groups (p.spec.cluster_name ∷ [])
      (if not p.spec.auto_upgrade then set_skipped p else initiate p eks latest_release)))

  abbrev pub after_tracking : Config → String → String → Bool × Option Error → M (Option Error)
  after_tracking eks current_release latest_release (true, e) = pure e
  after_tracking eks current_release latest_release (false, _) =
      handle_not_in_flight eks current_release latest_release

  -- The assignments at the head of ProcessUpgrade.
  unfoldable pub record_check : String → String → M (Unit {0})
  record_check current_release latest_release = do
    p ← policy
    t ← now env
    set_gauge last_checked_timestamp (labels p) (unix t)
    u ← now env
    set_status (λ s. record s {
      last_checked = u;
      current_ami = current_release;
      target_ami = latest_release;
    })
    set_lifecycle p "idle"
    clear_inflight p

  -- ProcessUpgrade
  unfoldable pub process_upgrade : String → String → Config → M (Option Error)
  process_upgrade current_release latest_release eks = do
    record_check current_release latest_release
    r ← track_in_flight_update env eks
    after_tracking eks current_release latest_release r
