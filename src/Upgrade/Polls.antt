-- ===== src/Upgrade/Polls.antt =====
-- What trackInFlightUpdate of internal/upgrade/upgrade.go stores, branch by branch.
use eks_ami_operator.Base.{◌≤◌, suc, ◌≡◌, inl, inr, refl, sym, true, String, arith, str_eq_sound}
use eks_ami_operator.Go.Error.{Result, ok, err}
use eks_ami_operator.Go.Time.{Time}
use eks_ami_operator.Api.{Policy}
use eks_ami_operator.World.{Config, Env, World}
use eks_ami_operator.Aws.{UpdateOutcome, describe_nodegroup_update}
use eks_ami_operator.Upgrade.Status.{eks_successful, eks_failed, eks_cancelled, mark_running}
use eks_ami_operator.Upgrade.Track.{
  is_tracked, set_terminal_failure, set_terminal_success, keep_in_flight, on_status, on_outcome,
  track_in_flight_update,
}
use eks_ami_operator.World.Stores.{stores, persist-Stored, Stored-later}
use eks_ami_operator.Upgrade.Lifecycle.{
  Seen, Polled-of_answer, unread, running, finished, stopped, Checked, checked, carried, IsRunning,
  eks_cases,
}
use eks_ami_operator.Upgrade.Stores.{Done, Start}

module _ (env : Env) where
  module _ (seen : Seen) (old : Policy) (at : Time) (current latest : String) (eks : Config) where
    mark_running_policy : (p : Policy) (w : World) → (mark_running env p w).1.policy ≡ w.policy
    mark_running_policy p w = ground arith

    stores-mark_running :
        (p : Policy) (w : World) → stores (mark_running env p w).1.calls ≡ stores w.calls
    stores-mark_running p w = ground arith

    tick-mark_running : (p : Policy) (w : World) → w.tick ≤ (mark_running env p w).1.tick
    tick-mark_running p w = ground arith

    keep-Done :
        (p : Policy) (w : World)
        → Checked seen old at current latest w.policy
        → Done env seen old at current latest eks w (keep_in_flight env p w).1
    unfolding keep_in_flight
    keep-Done p w k =
        persist-Stored env w (mark_running env p w).1 (stores-mark_running p w)
          (tick-mark_running p w) (rw (mark_running_policy p w) k)

    -- The status with the answer `o` of DescribeUpdate.
    abbrev answered : UpdateOutcome → Time → World → World
    answered o t w = record w {
      policy = record (w.policy) {
        status = record (w.policy.status) { update_status = o.status; last_progress_check = t };
      };
    }

    on_status_running :
        (p : Policy) (o : UpdateOutcome) (w : World)
        → IsRunning o.status
        → on_status env p o w ≡ keep_in_flight env p w
    unfolding on_status
    on_status_running p o w (unfinished, unfailed, uncancelled) = ground (
      arith,
      str_eq_sound o.status eks_successful,
      str_eq_sound o.status eks_failed,
      str_eq_sound o.status eks_cancelled,
    )

    on_status_successful :
        (p : Policy) (o : UpdateOutcome) (w : World)
        → o.status ≡ eks_successful
        → on_status env p o w ≡ set_terminal_success env p w
    unfolding on_status
    on_status_successful p o w e = rw e

    on_status_failed :
        (p : Policy) (o : UpdateOutcome) (w : World)
        → o.status ≡ eks_failed
        → on_status env p o w ≡ set_terminal_failure env p o "failed" w
    unfolding on_status
    on_status_failed p o w e = rw e

    on_status_cancelled :
        (p : Policy) (o : UpdateOutcome) (w : World)
        → o.status ≡ eks_cancelled
        → on_status env p o w ≡ set_terminal_failure env p o "cancelled" w
    unfolding on_status
    on_status_cancelled p o w e = rw e

    on_status-Done :
        (p : Policy) (o : UpdateOutcome) (w : World)
        → Start env seen old at current latest eks w
        → is_tracked old.status ≡ true
        → seen.polled ≡ ok o
        → Done env seen old at current latest eks w
            (on_status env p o (answered o seen.polled_at w)).1
    unfolding set_terminal_success set_terminal_failure
    on_status-Done p o w r tracked said =
        let t = seen.polled_at in
        let same = r.same_update in
        let polled = Polled-of_answer r tracked said in
        elim (eks_cases o.status) [
          | inl going ↦ rw (on_status_running p o (answered o t w) going) (
              keep-Done p (answered o t w) (
                checked r _ refl refl refl refl
                  (running (polled _ _) going r.upgrade-eq same.same_errors)))
          | inr (inl e) ↦ rw (on_status_successful p o (answered o t w) e) (
              persist-Stored env w _ refl (omega arith)
                (checked r _ refl refl refl refl (finished (polled _ _) e refl refl)))
          | inr (inr (inl e)) ↦ rw (on_status_failed p o (answered o t w) e) (
              persist-Stored env w _ refl (omega arith)
                (checked r _ refl refl refl refl (stopped (polled _ _) (inl e) refl refl)))
          | inr (inr (inr e)) ↦ rw (on_status_cancelled p o (answered o t w) e) (
              persist-Stored env w _ refl (omega arith)
                (checked r _ refl refl refl refl (stopped (polled _ _) (inr e) refl refl)))
        ]

    -- The poll in the state `w` is answered as `seen` says.
    abbrev pub IsPolled : World → Type 0
    IsPolled w =
        (seen.polled
          ≡ (describe_nodegroup_update env eks w.policy.spec.cluster_name
              w.policy.spec.node_group_name w.policy.status.update_id w).0)
        × (seen.polled_at ≡ env.now (suc w.tick))

    pub track-Done :
        (w : World)
        → Start env seen old at current latest eks w
        → IsPolled w
        → is_tracked old.status ≡ true
        → is_tracked w.policy.status ≡ true
        → Done env seen old at current latest eks w (track_in_flight_update env eks w).1
    unfolding track_in_flight_update describe_nodegroup_update on_outcome keep_in_flight
    track-Done w r (said, time) tracked still =
        let p = w.policy in
        let (o, v) =
          describe_nodegroup_update env eks p.spec.cluster_name p.spec.node_group_name
            p.status.update_id w in
        rw still (
          Stored-later env w v (on_outcome env p o v).1 refl (omega arith)
            (polled p o v r said time))
      where
        polled :
            (p : Policy) (answer : Result UpdateOutcome) (v : World)
            → Start env seen old at current latest eks v
            → seen.polled ≡ answer
            → seen.polled_at ≡ env.now v.tick
            → Done env seen old at current latest eks v (on_outcome env p answer v).1
        polled p (err _) v r said time = keep-Done p v (
            checked r _ refl refl refl refl (
              unread tracked said r.upgrade-eq (carried r.same_update _ refl refl refl refl)
                r.attempt-eq))
        polled p (ok o) v r said time =
            (let later : World = record v { tick = suc v.tick } in
              Stored-later env v later (on_outcome env p (ok o) v).1 refl (omega arith)
                (rw (sym time) (on_status-Done p o later r tracked said)))
