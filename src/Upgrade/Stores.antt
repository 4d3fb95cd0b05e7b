-- ===== src/Upgrade/Stores.antt =====
-- What handleNotInFlight of internal/upgrade/upgrade.go stores, branch by branch.
use eks_ami_operator.Base.{
  ◌≤◌, suc, ◌&&◌, ◌≡◌, ◌≢◌, inl, inr, refl, true, false, not, String, Option, arith, str_eq,
  Bool-cases,
}
use eks_ami_operator.Go.Error.{Result, ok, err}
use eks_ami_operator.Base.Int.{pos, leb_ℤ}
use eks_ami_operator.Go.Time.{Time, add}
use eks_ami_operator.Go.Text.{trim_space}
use eks_ami_operator.Api.{Policy}
use eks_ami_operator.World.{Config, Env, World, ◌>>◌}
use eks_ami_operator.World.Kube
use eks_ami_operator.Scheduler.{next_run, reason_cron}
use eks_ami_operator.World.{Call}
use eks_ami_operator.World.Kube.{called}
use eks_ami_operator.Upgrade.Track.{is_tracked}
use eks_ami_operator.Upgrade.Initiate.{
  nudge, stamp_next_cron_window, set_compliant, set_skipped, on_initiation, initiate,
}
use eks_ami_operator.World.Stores.{stores, Stored, persist-Stored, Stored-later}
use eks_ami_operator.Upgrade.Lifecycle.{
  Seen, compliant, skipped, refused, initiated, Checked, Recorded, checked, carried, attempted,
}

-- The identifier of the update that UpdateNodegroupVersion answers.
abbrev pub named : Env → Result (Option String) → Result String
named env (ok id) = ok (env.to_string id)
named env (err e) = err e

module _ (env : Env) where
  module _ (seen : Seen) (old : Policy) (at : Time) (current latest : String) (eks : Config) where
    abbrev pub Done : World → World → Type 0
    Done w u = Stored env (Checked seen old at current latest) w u

    abbrev pub Start : World → Type 0
    Start w = Recorded old at old.status.last_upgrade_attempt current latest w.policy

    pub compliant-Done :
        (w : World)
        → Start w
        → is_tracked old.status ≡ false
        → current ≡ latest
        → Done w (set_compliant env w.policy w).1
    unfolding set_compliant
    compliant-Done w r idle same = persist-Stored env w _ refl (omega arith) (
        checked r _ refl refl refl refl
          (compliant idle same refl (carried r.same_update _ refl refl refl refl) r.attempt-eq))

    pub skipped-Done :
        (w : World)
        → Start w
        → is_tracked old.status ≡ false
        → current ≢ latest
        → old.spec.auto_upgrade ≡ false
        → Done w (set_skipped env w.policy w).1
    unfolding set_skipped
    skipped-Done w r idle differ manual = persist-Stored env w _ refl (omega arith) (
        checked r _ refl refl refl refl (
          skipped idle differ manual refl (carried r.same_update _ refl refl refl refl)
            r.attempt-eq))

    -- The cron window sets at most nextScheduledTime.
    abbrev at_window : Policy → Time → Policy
    at_window p t = record p { status = record (p.status) { next_scheduled_time = t } }

    stamp_policy :
        (w : World) → (t : Time) × ((stamp_next_cron_window env w).1.policy ≡ at_window w.policy t)
    unfolding stamp_next_cron_window
    stamp_policy w = elim (Bool-cases (str_eq (trim_space w.policy.spec.schedule_cron) "")) [
      | inl no_cron ↦ (w.policy.status.next_scheduled_time, rw no_cron)
      | inr on_cron ↦
          (let v : World = record w { tick = suc w.tick } in
            let t = env.now w.tick in
            let n = next_run env.calendar (add t nudge) w.policy.status.last_checked w.policy in
            elim (Bool-cases (str_eq n.reason reason_cron && not (leb_ℤ n.delay (pos 0)))) [
              | inl ahead ↦ (add t n.delay, rw (on_cron, ahead))
              | inr behind ↦ (w.policy.status.next_scheduled_time, rw (on_cron, behind))
            ])
    ]

    stores-stamp : (w : World) → stores (stamp_next_cron_window env w).1.calls ≡ stores w.calls
    unfolding stamp_next_cron_window
    stores-stamp w = ground arith

    tick-stamp : (w : World) → w.tick ≤ (stamp_next_cron_window env w).1.tick
    unfolding stamp_next_cron_window
    tick-stamp w = ground arith

    stamped-Done :
        (w : World)
        → ((t : Time) → Checked seen old at current latest (at_window w.policy t))
        → Done w ((stamp_next_cron_window env >> Kube.update_status env) w).1
    stamped-Done w k =
        let (t, e) = stamp_policy w in
        persist-Stored env w (stamp_next_cron_window env w).1 (stores-stamp w) (tick-stamp w)
          (rw e (k t))

    on_initiation-Done :
        (p : Policy) (answer : Result (Option String)) (w : World)
        → Recorded old at seen.started_at current latest w.policy
        → seen.started ≡ named env answer
        → is_tracked old.status ≡ false
        → current ≢ latest
        → old.spec.auto_upgrade ≡ true
        → Done w (on_initiation env p answer w).1
    unfolding on_initiation
    on_initiation-Done p (err _) w r answered idle differ auto =
        persist-Stored env w _ refl (omega arith) (
          checked r _ refl refl refl refl (
            refused idle differ auto answered refl (carried r.same_update _ refl refl refl refl)
              r.attempt-eq))
    on_initiation-Done p (ok id) w r answered idle differ auto = stamped-Done _ (λ t.
        checked r _ refl refl refl refl (
          initiated idle differ auto answered refl refl r.same_update.same_errors
            r.same_update.same_progress r.attempt-eq))

    -- An update that is started in the state `w` is answered as `seen` says.
    abbrev pub IsStarted : World → Type 0
    IsStarted w =
        (seen.started
          ≡ named env (
              env.update_nodegroup_version w.tick eks w.policy.spec.cluster_name
                w.policy.spec.node_group_name latest))
        × (seen.started_at ≡ env.now (suc w.tick))

    pub initiate-Done :
        (w : World)
        → Start w
        → IsStarted w
        → is_tracked old.status ≡ false
        → current ≢ latest
        → old.spec.auto_upgrade ≡ true
        → Done w (initiate env w.policy eks latest w).1
    unfolding initiate
    initiate-Done w r (answered, tried) idle differ auto =
        let p = w.policy in
        let c =
          Call.update_nodegroup_version eks p.spec.cluster_name p.spec.node_group_name latest in
        let t = env.now (suc w.tick) in
        let v : World = record (called c w) {
          tick = suc (suc w.tick);
          policy = record p { status = record (p.status) { last_upgrade_attempt = t } };
        } in
        Stored-later env w v (initiate env p eks latest w).1 refl (omega arith)
          (on_initiation-Done p _ v (rw tried (attempted r t)) answered idle differ auto)
