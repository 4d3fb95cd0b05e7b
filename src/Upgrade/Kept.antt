-- ===== src/Upgrade/Kept.antt =====
-- ProcessUpgrade of internal/upgrade/upgrade.go keeps every predicate that is free of the status and
-- allows the writes to the metrics.
use eks_ami_operator.Base.{not, if◌then◌else◌, ◌≡◌, refl, true, false, Bool, String, Option}
use eks_ami_operator.Go.Time.{is_zero, sub}
use eks_ami_operator.World.Clock.{now}
use eks_ami_operator.Go.Error.{Error, Result, ok, err}
use eks_ami_operator.Api.{Policy}
use eks_ami_operator.World.{World, Env, Config, ◌>>=◌, ◌>>◌, pure, set_gauge}
use eks_ami_operator.World.Keeps.{Keeps, Keeps-pure}
use eks_ami_operator.World.Free.{Free, free}
use eks_ami_operator.World.Kube
use eks_ami_operator.Metrics.Documented.{is_lifecycle, is_made}
use eks_ami_operator.Metrics.{set, number, seconds, update_status, update_inflight_seconds}
use eks_ami_operator.Aws.{UpdateOutcome, describe_nodegroup_update}
use eks_ami_operator.Upgrade.Status.{labels, labels_with, handled, set_lifecycle, clear_inflight}
use eks_ami_operator.Upgrade.Track.{
  set_terminal_failure, set_terminal_success, keep_in_flight, on_status, on_outcome,
  track_in_flight_update,
}
use eks_ami_operator.Upgrade.Initiate.{
  stamp_next_cron_window, set_compliant, set_skipped, on_initiation, initiate, handle_not_in_flight,
  after_tracking, record_check, process_upgrade,
}

lifecycle_is_made :
    (others : Bool) (p : Policy) (status : String)
    → is_lifecycle status ≡ true
    → is_made others (set update_status (labels_with p status) (number 1)) ≡ true
lifecycle_is_made others p status h = rw h refl

module _ {others : Bool} {P : World → Type 0} (env : Env) (r : Free others env P) where
  pub record_check-Keeps : (current latest : String) → Keeps P (record_check env current latest)
  unfolding record_check
  record_check-Keeps current latest = search free depth 9

  terminal_failure-Keeps :
      (p : Policy) (o : UpdateOutcome) (status : String)
      → is_lifecycle status ≡ true
      → Keeps P (set_terminal_failure env p o status)
  unfolding set_terminal_failure
  terminal_failure-Keeps p o status h = search (free, lifecycle_is_made) depth 9

  terminal_success-Keeps : (p : Policy) → Keeps P (set_terminal_success env p)
  unfolding set_terminal_success
  terminal_success-Keeps p = search free depth 9

  -- What follows the lifecycle state of an update that runs.
  pub inflight-Keeps :
      (p : Policy)
      → Keeps P (do
        (if is_zero p.status.last_upgrade_attempt then pure tt else (do
          t ← now env
          set_gauge update_inflight_seconds
              (labels p)
              (seconds (sub t p.status.last_upgrade_attempt))))
        handled env)
  inflight-Keeps p = search free depth 9

  pub keep_in_flight-Keeps : (p : Policy) → Keeps P (keep_in_flight env p)
  unfolding keep_in_flight
  keep_in_flight-Keeps p = search free depth 9

  on_status-Keeps : (p : Policy) (o : UpdateOutcome) → Keeps P (on_status env p o)
  unfolding on_status
  on_status-Keeps p o =
      search (free, terminal_failure-Keeps, terminal_success-Keeps, keep_in_flight-Keeps) depth 9

  pub on_outcome-Keeps : (p : Policy) (a : Result UpdateOutcome) → Keeps P (on_outcome env p a)
  unfolding on_outcome
  on_outcome-Keeps p (err _) = keep_in_flight-Keeps p
  on_outcome-Keeps p (ok o) = search (free, on_status-Keeps) depth 9

  update-Keeps :
      (eks : Config) (cluster ng id : String)
      → Keeps P (describe_nodegroup_update env eks cluster ng id)
  unfolding describe_nodegroup_update
  update-Keeps eks cluster ng id = search free depth 9

  pub track-Keeps : (eks : Config) → Keeps P (track_in_flight_update env eks)
  unfolding track_in_flight_update
  track-Keeps eks = search (free, update-Keeps, on_outcome-Keeps) depth 9

  stamp-Keeps : Keeps P (stamp_next_cron_window env)
  unfolding stamp_next_cron_window
  stamp-Keeps = search free depth 9

  skipped-Keeps : (p : Policy) → Keeps P (set_skipped env p)
  unfolding set_skipped
  skipped-Keeps p = search free depth 9

  on_initiation-Keeps : (p : Policy) (a : Result (Option String)) → Keeps P (on_initiation env p a)
  unfolding on_initiation
  on_initiation-Keeps p (err _) = search free depth 9
  on_initiation-Keeps p (ok id) = search (free, stamp-Keeps) depth 9

  initiate-Keeps :
      (p : Policy) (eks : Config) (latest : String) → Keeps P (initiate env p eks latest)
  unfolding initiate
  initiate-Keeps p eks latest = search (free, on_initiation-Keeps) depth 9

  -- What set_compliant does behind the reset of the count.
  pub idle-Keeps :
      (p : Policy) → Keeps P (do set_lifecycle p "idle"; clear_inflight p; Kube.update_status env)
  idle-Keeps p = search free depth 9

  -- What handle_not_in_flight does behind the count, for a policy that upgrades by itself or not.
  pub counted-Keeps :
      (p : Policy) (eks : Config) (latest : String)
      → Keeps P (if not p.spec.auto_upgrade then set_skipped env p else initiate env p eks latest)
  counted-Keeps p eks latest = search (free, skipped-Keeps, initiate-Keeps) depth 9

module _ {P : World → Type 0} (env : Env) (r : Free false env P) where
  compliant-Keeps : (p : Policy) → Keeps P (set_compliant env p)
  unfolding set_compliant
  compliant-Keeps p = search free depth 9

  handle-Keeps :
      (eks : Config) (current latest : String)
      → Keeps P (handle_not_in_flight env eks current latest)
  unfolding handle_not_in_flight
  handle-Keeps eks current latest =
      search (free, compliant-Keeps, skipped-Keeps env r, initiate-Keeps env r) depth 9

  pub tracked-Keeps :
      (eks : Config) (current latest : String) (a : Bool × Option Error)
      → Keeps P (after_tracking env eks current latest a)
  tracked-Keeps eks current latest (true, e) = Keeps-pure e
  tracked-Keeps eks current latest (false, _) = handle-Keeps eks current latest

  -- What follows the head of ProcessUpgrade.
  pub tail-Keeps :
      (eks : Config) (current latest : String)
      → Keeps P (do r ← track_in_flight_update env eks; after_tracking env eks current latest r)
  tail-Keeps eks current latest = search (free, track-Keeps env r, tracked-Keeps) depth 9

  pub process_upgrade-Keeps :
      (current latest : String) (eks : Config) → Keeps P (process_upgrade env current latest eks)
  unfolding process_upgrade
  process_upgrade-Keeps current latest eks =
      search (free, record_check-Keeps env r, track-Keeps env r, tracked-Keeps) depth 9
