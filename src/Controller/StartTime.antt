-- ===== src/Controller/StartTime.antt =====
-- The two readings of the clock against startAfter: ShouldSkip of internal/scheduler/scheduler.go
-- under handleGuards of internal/controller/nodegroupupgradepolicy_controller.go.
use eks_ami_operator.Base.{
  suc, ◌≡◌, ◌≢◌, refl, arith, false, true, str_eq, str_eq_sound, none, some, Bool-cases, inl, inr,
}
use eks_ami_operator.Base.Int.{pos, ◌<ℤ◌, ◌≤ℤ◌, int_laws, lt→ltb_ℤ, le→leb_ℤ}
use eks_ami_operator.Go.Time.{Time, Duration, sub, sub-le}
use eks_ami_operator.Go.Error.{ok}
use eks_ami_operator.World.{Env, World}
use eks_ami_operator.Scheduler.{should_skip, start_after, jitter}
use eks_ami_operator.Controller.Schedule.{requeue, on_skip, handle_guards}

module _ (env : Env) where
  skip_at_start :
      (w : World) (start : Time)
      → w.policy.spec.paused ≡ false
      → str_eq w.policy.spec.start_after "" ≡ false
      → env.calendar.parse_rfc3339 w.policy.spec.start_after ≡ ok start
      → env.now w.tick <ℤ start
      → should_skip env w.policy w ≡ (
        record { skip = true; requeue_after = sub start (env.now (suc w.tick)); error = none },
        record w { tick = suc (suc w.tick) },
      )
  unfolding should_skip start_after
  skip_at_start w start running given parsed early =
      let before' = lt→ltb_ℤ (env.now w.tick) start early in
      ground (arith, parsed, before', running, given)

  jitter_spent : (d : Duration) (w : World) → d ≤ℤ pos 0 → jitter env d w ≡ (d, w)
  unfolding jitter
  jitter_spent d w h = rw (le→leb_ℤ d (pos 0) h)

  -- If the start time of a policy that is not paused comes between the two readings of the clock in
  -- ShouldSkip, handleGuards ends the reconcile with a delay that is not positive, without a call.
  pub start_between_readings :
      (w : World) (start : Time)
      → w.policy.spec.paused ≡ false
      → w.policy.spec.start_after ≢ ""
      → env.calendar.parse_rfc3339 w.policy.spec.start_after ≡ ok start
      → env.now w.tick <ℤ start
      → start ≤ℤ env.now (suc w.tick)
      → let (r, u) = handle_guards env w in
        (d : Duration) × (r ≡ (some (requeue d), none))
        × (d ≤ℤ pos 0)
        × (u.calls ≡ w.calls)
        × (u.policy ≡ w.policy)
  unfolding handle_guards on_skip
  start_between_readings w start running given parsed early late =
      let d = sub start (env.now (suc w.tick)) in
      let spent : d ≤ℤ pos 0 =
        sub-le start (env.now (suc w.tick)) (pos 0) (omega arith) (omega int_laws) in
      elim (Bool-cases (str_eq w.policy.spec.start_after "")) [
        | inl empty ↦ absurd (given (str_eq_sound _ _ empty))
        | inr given' ↦
            rw
              (
                skip_at_start w start running given' parsed early,
                jitter_spent d (record w { tick = suc (suc w.tick) }) spent,
              )
              (d, refl, spent, refl, refl)
      ]
