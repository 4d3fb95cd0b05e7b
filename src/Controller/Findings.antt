-- ===== src/Controller/Findings.antt =====
-- The schedule of internal/controller/nodegroupupgradepolicy_controller.go and
-- internal/scheduler/scheduler.go at the edges: a cooldown while an update is in flight, an interval
-- that is not positive, an expression that never fires.
use eks_ami_operator.Base.{
  ℕ, suc, ◌-◌, ◌*◌, ◌<◌, ◌≡◌, ◌≢◌, inr, ap, ◌∙◌, arith, true, false, not, str_eq_complete, none,
  some,
}
use eks_ami_operator.Base.Int.{pos, ◌+ℤ◌, ◌-ℤ◌, ◌≤ℤ◌, +ℤ_parts, int_laws}
use eks_ami_operator.Go.Time.{
  Time, Duration, nanosecond, hour, zero_time, sub, sub_exact, sub64, sub64_exact, sub-le,
}
use eks_ami_operator.Api.{Policy}
use eks_ami_operator.World.{Schedule, Location, Calendar, Env, IsRandom, World}
use eks_ami_operator.Scheduler.{
  early_tolerance, reason_interval, cron_delay, next_run, next_run_interval, parse_interval, jitter,
  should_skip, cooldown, using_cron, min_interval,
}
use eks_ami_operator.Scheduler.Interval.{next_run_interval_due}
use eks_ami_operator.Scheduler.Jitter.{jitter_bounds}
use eks_ami_operator.Controller.Schedule.{
  requeue, nudged, with_fallback, jitter_interval, compute_next_delay, on_skip, handle_guards,
}

-- robfig/cron gives the zero time for an expression that never fires. NextRun reads the distance to
-- it, which is not positive, as "at most one second ahead": the policy is due at every instant from
-- the zero time on.
pub never_fires_is_due :
    (schedule : Schedule) (loc : Location) (base : Time)
    → ((t : Time) → schedule loc t ≡ zero_time)
    → pos 0 ≤ℤ base
    → cron_delay schedule loc base ≡ pos 0
unfolding cron_delay
never_fires_is_due schedule loc base never h =
    let next = schedule loc (base -ℤ nanosecond) in
    ground (
      arith,
      never (base -ℤ nanosecond),
      sub-le next base early_tolerance (omega arith),
      +ℤ_parts base early_tolerance,
    )

-- NextRun with no cron expression.
next_run_interval_only :
    (cal : Calendar) (t last : Time) (p : Policy)
    → p.spec.schedule_cron ≡ ""
    → next_run cal t last p
      ≡ record { delay = next_run_interval cal t last p; reason = reason_interval; error = none }
unfolding next_run
next_run_interval_only cal t last p h = rw (ap not (str_eq_complete p.spec.schedule_cron "" h))

next_run_stalled :
    (cal : Calendar) (t last : Time) (p : Policy)
    → p.spec.schedule_cron ≡ ""
    → parse_interval cal p.spec.check_interval ≤ℤ pos 0
    → last ≤ℤ t
    → next_run cal t last p ≡ record { delay = pos 0; reason = reason_interval; error = none }
next_run_stalled cal t last p no_cron stalled past =
    let due : last +ℤ parse_interval cal p.spec.check_interval ≤ℤ t = omega int_laws in
    next_run_interval_only cal t last p no_cron
    ∙ ap (λ d. record { delay = d; reason = reason_interval; error = none })
        ((next_run_interval_due cal t last p).1 (inr due))

module _ (env : Env) where
  -- With no cron expression, an interval that is zero or negative and a last check that is not in the
  -- future, computeNextDelay gives that interval: its safety net does not make the delay positive.
  pub compute_next_delay_stalls :
      (w : World)
      → w.policy.spec.schedule_cron ≡ ""
      → parse_interval env.calendar w.policy.spec.check_interval ≤ℤ pos 0
      → w.policy.status.last_checked ≤ℤ env.now w.tick
      → (compute_next_delay env w).0 ≡ parse_interval env.calendar w.policy.spec.check_interval
  unfolding compute_next_delay nudged with_fallback jitter_interval
  compute_next_delay_stalls w no_cron stalled past =
      let p = w.policy in
      rw (
        next_run_stalled env.calendar (env.now w.tick) p.status.last_checked p no_cron stalled past)

  -- The cooldown of a policy on an interval, `since` nanoseconds after its last attempt.
  abbrev pub IsCooling : Policy → Time → ℕ → Type 0
  IsCooling p t since =
      (using_cron p.spec ≡ false)
      × (p.status.last_upgrade_attempt ≢ zero_time)
      × (t ≡ p.status.last_upgrade_attempt +ℤ pos since)
      × (since < 6 * hour)

  cooling_since :
      (last t : Time) (since : ℕ)
      → t ≡ last +ℤ pos since
      → since < 6 * hour
      → (sub t last ≡ pos since) × (sub64 min_interval (sub t last) ≡ pos (6 * hour - since))
  cooling_since last t since e h =
      let d : t -ℤ last ≡ pos since = rw e (omega int_laws) in
      let s : sub t last ≡ pos since = sub_exact t last (rw d (omega arith)) ∙ d in
      (s, rw s (sub64_pos h))
    where
      sub64_pos : since < 6 * hour → sub64 min_interval (pos since) ≡ pos (6 * hour - since)
      sub64_pos h =
          let d : min_interval -ℤ pos since ≡ pos (6 * hour - since) = omega int_laws in
          sub64_exact min_interval (pos since) (rw d (omega arith)) ∙ d

  skip_cooling :
      (w : World) (since : ℕ)
      → w.policy.spec.paused ≡ false
      → w.policy.spec.start_after ≡ ""
      → IsCooling w.policy (env.now w.tick) since
      → should_skip env w.policy w ≡ (
        record { skip = true; requeue_after = pos (6 * hour - since); error = none },
        record w { tick = suc (w.tick) },
      )
  unfolding should_skip cooldown
  skip_cooling w since running no_start (interval, attempted, elapsed, early) =
      let last = w.policy.status.last_upgrade_attempt in
      let (s, left) = cooling_since last (env.now w.tick) since elapsed early in
      ground (arith, str_eq_complete w.policy.spec.start_after "" no_start, s, left)

  jitter_same :
      (d : Duration) (w : World)
      → let u = (jitter env d w).1 in
        (u.calls ≡ w.calls) × (u.policy ≡ w.policy) × (u.metrics ≡ w.metrics)
  unfolding jitter
  jitter_same d w = ground arith

  -- For six hours after an attempt, handleGuards sends a policy that is not paused, has no start time
  -- and is on an interval back with no call and no write, whether or not an update is in flight, and
  -- queues it again after the rest of the six hours, less a tenth at most.
  pub cooldown_blocks_polling :
      (w : World) (since : ℕ)
      → IsRandom env
      → w.policy.spec.paused ≡ false
      → w.policy.spec.start_after ≡ ""
      → IsCooling w.policy (env.now w.tick) since
      → let (r, u) = handle_guards env w in
        (m : ℕ) × (r ≡ (some (requeue (pos m)), none))
        × (9 * (6 * hour - since) < 10 * m)
        × (u.calls ≡ w.calls)
        × (u.policy ≡ w.policy)
        × (u.metrics ≡ w.metrics)
  unfolding handle_guards on_skip
  cooldown_blocks_polling w since random running no_start cooling =
      let v : World = record w { tick = suc (w.tick) } in
      let left = 6 * hour - since in
      let (m, e, p, above, below) = jitter_bounds env left v random (omega arith) (omega arith) in
      let (same_calls, same_policy, same_metrics) = jitter_same (pos left) v in
      rw (skip_cooling w since running no_start cooling)
        (m, ap (λ d. (some (requeue d), none)) e, above, same_calls, same_policy, same_metrics)
