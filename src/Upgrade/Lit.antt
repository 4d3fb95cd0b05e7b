-- ===== src/Upgrade/Lit.antt =====
-- The gauge of the lifecycle state behind ProcessUpgrade of internal/upgrade/upgrade.go.
use eks_ami_operator.Base.{◌≡◌, refl, arith, suc, Bool, true, false, String, str_eq, ◌∷◌}
use eks_ami_operator.Go.Error.{Result, ok, err}
use eks_ami_operator.Api.{Policy}
use eks_ami_operator.Metrics.{set, number, update_status}
use eks_ami_operator.Metrics.Documented.{same, more}
use eks_ami_operator.Metrics.Reading.{IsLit, Grows-IsLit, set-IsLit}
use eks_ami_operator.World.{Config, Env, World, Update}
use eks_ami_operator.Aws.{UpdateOutcome, describe_nodegroup_update}
use eks_ami_operator.World.Metered.{Metered-Free}
use eks_ami_operator.Upgrade.Status.{labels_with, eks_in_progress}
use eks_ami_operator.Upgrade.Track.{
  is_tracked, keep_in_flight, on_status, on_outcome, track_in_flight_update,
}
use eks_ami_operator.Upgrade.Initiate.{record_check, process_upgrade}
use eks_ami_operator.Upgrade.Kept.{tail-Keeps, inflight-Keeps, tracked-Keeps}

-- The read of the update failed, or EKS says that it is still running.
abbrev pub still_running : Result Update → Bool
still_running (err _) = true
still_running (ok u) = str_eq u.status eks_in_progress

abbrev still : Result UpdateOutcome → Bool
still (err _) = true
still (ok o) = str_eq o.status eks_in_progress

module _ (env : Env) where
  record_check-IsLit :
      (current latest : String) (w : World)
      → IsLit (labels_with w.policy "idle") (record_check env current latest w).1.metrics
  unfolding record_check
  record_check-IsLit current latest w =
      Grows-IsLit {others = false} _ (more refl same) (set-IsLit (labels_with w.policy "idle") _)

  -- Behind ProcessUpgrade, whatever it finds, the state "idle" of the node group reads 1.
  pub process_upgrade-IsLit :
      (current latest : String) (eks : Config) (w : World)
      → IsLit (labels_with w.policy "idle") (process_upgrade env current latest eks w).1.metrics
  unfolding process_upgrade
  process_upgrade-IsLit current latest eks w =
      let (_, v) = record_check env current latest w in
      Grows-IsLit (labels_with w.policy "idle")
        ((tail-Keeps env (Metered-Free env) eks current latest).at v same)
        (record_check-IsLit current latest w)

  keep_in_flight-IsLit :
      (p : Policy) (w : World)
      → IsLit (labels_with p "in_progress") (keep_in_flight env p w).1.metrics
  unfolding keep_in_flight
  keep_in_flight-IsLit p w =
      let state = labels_with p "in_progress" in
      let w' : World = record w { metrics = set update_status state (number 1) ∷ w.metrics } in
      Grows-IsLit {others = false} state ((inflight-Keeps env (Metered-Free env) p).at w' same)
        (set-IsLit state w.metrics)

  on_outcome-IsLit :
      (p : Policy) (r : Result UpdateOutcome) (w : World)
      → still r ≡ true
      → IsLit (labels_with p "in_progress") (on_outcome env p r w).1.metrics
  unfolding on_outcome on_status
  on_outcome-IsLit p (err e) w h = keep_in_flight-IsLit p w
  on_outcome-IsLit p (ok o) w h = rw h (keep_in_flight-IsLit p _)

  -- The answer of EKS, as DescribeNodegroupUpdate reports it.
  tracked-IsLit :
      (p : Policy) (eks : Config) (w : World)
      → still_running (
          env.describe_update w.tick eks p.spec.cluster_name p.spec.node_group_name
            p.status.update_id)
        ≡ true
      → let (r, v) =
          describe_nodegroup_update env eks p.spec.cluster_name p.spec.node_group_name
            p.status.update_id w in
        IsLit (labels_with p "in_progress") (on_outcome env p r v).1.metrics
  unfolding describe_nodegroup_update
  tracked-IsLit p eks w h = on_outcome-IsLit p _ _ (ground arith)

  track-IsLit :
      (eks : Config) (w : World)
      → is_tracked w.policy.status ≡ true
      → still_running (
          env.describe_update w.tick eks w.policy.spec.cluster_name w.policy.spec.node_group_name
            w.policy.status.update_id)
        ≡ true
      → IsLit (labels_with w.policy "in_progress") (track_in_flight_update env eks w).1.metrics
  unfolding track_in_flight_update
  track-IsLit eks w tracked running = rw tracked (tracked-IsLit w.policy eks w running)

  -- While an update is in flight, as long as EKS says that it is running or does not answer, both
  -- states "idle" and "in_progress" of the node group read 1 behind ProcessUpgrade.
  pub two_states-IsLit :
      (current latest : String) (eks : Config) (w : World)
      → is_tracked w.policy.status ≡ true
      → still_running (
          env.describe_update
            (suc (suc w.tick))
            eks
            w.policy.spec.cluster_name
            w.policy.spec.node_group_name
            w.policy.status.update_id)
        ≡ true
      → IsLit (labels_with w.policy "idle") (process_upgrade env current latest eks w).1.metrics
        × IsLit
            (labels_with w.policy "in_progress")
            (process_upgrade env current latest eks w).1.metrics
  unfolding process_upgrade record_check
  two_states-IsLit current latest eks w tracked running =
      let (_, v) = record_check env current latest w in
      let (r, u) = track_in_flight_update env eks v in
      (
        process_upgrade-IsLit current latest eks w,
        Grows-IsLit (labels_with w.policy "in_progress")
            ((tracked-Keeps env (Metered-Free env) eks current latest r).at u same)
            (track-IsLit eks v tracked running),
      )
