-- ===== src/Upgrade/Stored.antt =====
-- What ProcessUpgrade of internal/upgrade/upgrade.go stores.
use eks_ami_operator.Base.{
  suc, ◌≡◌, ◌≢◌, inl, inr, refl, sym, ap, if◌then◌else◌, Bool, true, false, not, String, arith,
  str_eq, str_eq_sound, str_ne, Bool-cases,
}
use eks_ami_operator.Go.Time.{Time}
use eks_ami_operator.Api.{Policy}
use eks_ami_operator.World.{Config, Env, World}
use eks_ami_operator.Upgrade.Track.{is_tracked}
use eks_ami_operator.Upgrade.Initiate.{
  set_skipped, initiate, handle_not_in_flight, record_check, after_tracking, process_upgrade,
}
use eks_ami_operator.World.Stores.{Stored, Stored-later}
use eks_ami_operator.Upgrade.Lifecycle.{Seen, Checked, Recorded}
use eks_ami_operator.Aws.{describe_nodegroup_update}
use eks_ami_operator.Upgrade.Process.{outdated, track_idle, track_handles}
use eks_ami_operator.Upgrade.Stores.{
  named, IsStarted, Done, Start, compliant-Done, skipped-Done, initiate-Done,
}
use eks_ami_operator.Upgrade.Polls.{track-Done}

-- What ProcessUpgrade asks for behind the check of the state `w`: of the update in flight, or of a new
-- one.
abbrev pub seen_by : Env → Config → String → World → Seen
seen_by env eks latest w =
    let p = w.policy in
    let k = suc (suc w.tick) in
    record {
      polled =
          (describe_nodegroup_update env eks p.spec.cluster_name p.spec.node_group_name
            p.status.update_id (record w { tick = k })).0;
      polled_at = env.now (suc k);
      started =
          named env
            (env.update_nodegroup_version k eks p.spec.cluster_name p.spec.node_group_name latest);
      started_at = env.now (suc k);
    }

module _ (env : Env) where
  module _ (seen : Seen) (old : Policy) (at : Time) (current latest : String) (eks : Config) where
    outdated-Done :
        (auto_upgrade : Bool) (w : World)
        → Start env seen old at current latest eks w
        → IsStarted env seen old at current latest eks w
        → is_tracked old.status ≡ false
        → current ≢ latest
        → old.spec.auto_upgrade ≡ auto_upgrade
        → Done env seen old at current latest eks w
            ((if not auto_upgrade
                then set_skipped env w.policy
                else initiate env w.policy eks latest)
              (outdated env w)).1
    outdated-Done true w r answered idle differ auto =
        initiate-Done env seen old at current latest eks (outdated env w) r answered idle differ
          auto
    outdated-Done false w r answered idle differ manual =
        skipped-Done env seen old at current latest eks (outdated env w) r idle differ manual

    not_in_flight-Done :
        (w : World)
        → Start env seen old at current latest eks w
        → IsStarted env seen old at current latest eks w
        → is_tracked old.status ≡ false
        → Done env seen old at current latest eks w
            (handle_not_in_flight env eks current latest w).1
    unfolding handle_not_in_flight
    not_in_flight-Done w r answered idle = elim (Bool-cases (str_eq current latest)) [
      | inl same ↦
          rw same
            (compliant-Done env seen old at current latest eks w r idle (str_eq_sound _ _ same))
      | inr differ ↦ rw differ (
          outdated-Done w.policy.spec.auto_upgrade w r answered idle (str_ne _ _ differ)
            (sym (ap (λ s. s.auto_upgrade) r.spec-eq)))
    ]

  stores_behind_check :
      (current latest : String) (eks : Config) (w : World)
      → Stored env
          (Checked (seen_by env eks latest w) w.policy (env.now (suc w.tick)) current latest)
          (record_check env current latest w).1
          (process_upgrade env current latest eks w).1
  unfolding process_upgrade record_check describe_nodegroup_update
  stores_behind_check current latest eks w =
      let v = (record_check env current latest w).1 in
      let at = env.now (suc w.tick) in
      let seen = seen_by env eks latest w in
      let r : Recorded w.policy at w.policy.status.last_upgrade_attempt current latest v.policy =
        record {
          spec-eq = refl;
          name-eq = refl;
          conditions-eq = refl;
          checked-eq = refl;
          current-eq = refl;
          target-eq = refl;
          upgrade-eq = refl;
          same_update = record {
            same_id = refl;
            same_state = refl;
            same_errors = refl;
            same_progress = refl;
          };
          attempt-eq = refl;
        } in
      elim (Bool-cases (is_tracked w.policy.status)) [
        | inl tracked ↦
            rw (track_handles env eks v tracked, after_tracking)
              (track-Done env seen w.policy at current latest eks v r (refl, refl) tracked tracked)
        | inr idle ↦
            rw (track_idle env eks v idle)
              (not_in_flight-Done seen w.policy at current latest eks v r (refl, refl) idle)
      ]

  -- ProcessUpgrade ends with one status update. The policy that it stores has the spec, the name and
  -- the conditions of before, the two releases and the time of the check, and its status is one move
  -- from the old one. With an update in flight, if EKS answers, its status of the update is stored with
  -- the time, and the policy is Succeeded with no errors if that is Successful, Failed with the errors
  -- of the update if that is Failed or Cancelled, and else as before. With none in flight the policy is
  -- Succeeded if the releases are equal, else Skipped without autoUpgrade, else Failed if EKS refuses
  -- the update, and else InProgress with the identifier that EKS gives and with updateStatus InProgress;
  -- in the last two with the time of the attempt. Otherwise upgradeStatus, updateID, updateStatus,
  -- updateErrors and the times of the last poll and the last attempt stay as they were.
  pub process_upgrade_stores :
      (current latest : String) (eks : Config) (w : World)
      → Stored env
          (Checked (seen_by env eks latest w) w.policy (env.now (suc w.tick)) current latest)
          w
          (process_upgrade env current latest eks w).1
  unfolding record_check
  process_upgrade_stores current latest eks w =
      Stored-later env w (record_check env current latest w).1
        (process_upgrade env current latest eks w).1 refl (omega arith)
        (stores_behind_check current latest eks w)
