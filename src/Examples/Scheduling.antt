-- ===== src/Examples/Scheduling.antt =====
-- Tests of the schedule.
use eks_ami_operator.Base.{
  str_ne, ◌≡◌, ◌≢◌, ◌⊎◌, ◌↔◌, ◌+◌, ◌*◌, ◌-◌, ◌<◌, refl, arith, false, [], none, some, ℕ,
}
use eks_ami_operator.Base.Int.{pos, negsuc, ◌<ℤ◌, ◌≤ℤ◌, ◌+ℤ◌, ◌-ℤ◌, int_laws}
use eks_ami_operator.Go.Time.{Duration, Time, hour, minute, second, nanosecond, sub, zero_time}
use eks_ami_operator.Go.Text.{trim_space, ◌<>◌}
use eks_ami_operator.Go.Scan.Decimal.{decimal}
use eks_ami_operator.Scheduler.Hours.{parse_interval-hours}
use eks_ami_operator.Go.ParseDuration.{parse_duration}
use eks_ami_operator.World.{Env, World, Schedule}
use eks_ami_operator.Scheduler.{
  cron_delay, jitter, next_run_interval, parse_interval, should_skip, early_tolerance,
  late_tolerance, using_cron,
}
use eks_ami_operator.Scheduler.Cron.{cron_due_iff, cron_waits}
use eks_ami_operator.Scheduler.Guards.{
  Passes, IsStarted, IsCooled, cooldown_clock, should_skip-Passes_iff,
}
use eks_ami_operator.Scheduler.Jitter.{jitter_bounds}
use eks_ami_operator.Scheduler.Interval.{next_run_interval_due}
use eks_ami_operator.Controller.{compute_next_delay, handle_guards, requeue}
use eks_ami_operator.Controller.StartTime.{start_between_readings}
use eks_ami_operator.Go.Error.{ok}
use eks_ami_operator.Controller.Findings.{
  never_fires_is_due, compute_next_delay_stalls, cooldown_blocks_polling,
}
use eks_ami_operator.Examples.Minutely.{minutely, IsWhole, minutely-IsNext}
use eks_ami_operator.Examples.{calendar, env, start, policy, spec, status, env-IsRandom}

abbrev schedule : Schedule
schedule = λ loc t. minutely t

-- Three seconds behind a whole minute, and thirty.
abbrev just_behind : Time
just_behind = pos (minute + 3 * second)

abbrev far_behind : Time
far_behind = pos (minute + 30 * second)

due_just_behind : cron_delay schedule "UTC" just_behind ≡ pos 0
unfolding cron_delay sub ◌-ℤ◌
due_just_behind = refl

waits_far_behind : cron_delay schedule "UTC" far_behind ≡ pos (30 * second)
unfolding cron_delay sub ◌-ℤ◌
waits_far_behind = refl

cron_due_iff_example : (cron_delay schedule "UTC" just_behind ≡ pos 0) ↔ (
    (u : Time) × IsWhole u
    × ((just_behind ≤ℤ u +ℤ late_tolerance) × (u ≤ℤ just_behind +ℤ early_tolerance)))
cron_due_iff_example = cron_due_iff schedule "UTC" IsWhole minutely-IsNext just_behind

not_due : cron_delay schedule "UTC" far_behind ≢ pos 0
not_due h = ground (arith, h, waits_far_behind)

cron_waits_example :
    let d = cron_delay schedule "UTC" far_behind in
    let next = minutely (far_behind -ℤ nanosecond) in
    (d ≡ sub next far_behind) × (pos 0 <ℤ d) × IsWhole next × (far_behind <ℤ next)
cron_waits_example = cron_waits schedule "UTC" IsWhole minutely-IsNext far_behind not_due

jitter_bounds_example :
    (m : ℕ) × ((jitter env (pos (6 * hour)) start).0 ≡ pos m)
    × (0 < m)
    × (9 * (6 * hour) < 10 * m)
    × (10 * m < 11 * (6 * hour))
jitter_bounds_example = jitter_bounds env (6 * hour) start env-IsRandom (omega arith) (omega arith)

next_run_interval_due_example :
    (next_run_interval calendar (pos (100 * hour)) (pos (50 * hour)) policy ≡ pos 0) ↔ (
      (pos (50 * hour) ≡ zero_time)
      ⊎ (pos (50 * hour) +ℤ parse_interval calendar "24h" ≤ℤ pos (100 * hour)))
next_run_interval_due_example =
    next_run_interval_due calendar (pos (100 * hour)) (pos (50 * hour)) policy

should_skip-Passes_iff_example : Passes (should_skip env policy start).0 ↔ (
    (policy.spec.paused ≡ false)
    × IsStarted env policy (env.now 0)
    × IsCooled policy (cooldown_clock env policy start))
should_skip-Passes_iff_example = should_skip-Passes_iff env policy start

day : parse_interval calendar "24h" ≡ pos (24 * hour)
unfolding parse_interval parse_duration
day = refl

hour_back : parse_interval calendar "-1h" ≡ negsuc (hour - 1)
unfolding parse_interval parse_duration
hour_back = refl

no_cron : using_cron spec ≡ false
unfolding trim_space
no_cron = refl

never_fires_is_due_example : cron_delay (λ loc t. zero_time) "UTC" (pos (100 * hour)) ≡ pos 0
never_fires_is_due_example =
    never_fires_is_due (λ loc t. zero_time) "UTC" (pos (100 * hour)) (λ t. refl) (omega arith)

-- A policy with the interval "-1h".
abbrev stalled : World
stalled = record start { policy = record policy { spec = record spec { check_interval = "-1h" } } }

compute_next_delay_stalls_example :
    (compute_next_delay env stalled).0 ≡ parse_interval calendar "-1h"
compute_next_delay_stalls_example =
    compute_next_delay_stalls env stalled refl (rw hour_back (omega arith)) (omega arith)

-- A policy with an update in flight for an hour.
abbrev flying : World
flying = record start {
  policy = record policy {
    status = record status {
      upgrade_status = "InProgress";
      update_id = "u";
      update_status = "InProgress";
      last_upgrade_attempt = pos (99 * hour);
    };
  };
}

cooldown_blocks_polling_example :
    let (r, u) = handle_guards env flying in
    (m : ℕ) × (r ≡ (some (requeue (pos m)), none))
    × (9 * (6 * hour - 1 * hour) < 10 * m)
    × (u.calls ≡ [])
    × (u.policy ≡ flying.policy)
    × (u.metrics ≡ [])
cooldown_blocks_polling_example =
    cooldown_blocks_polling env flying (1 * hour) env-IsRandom refl refl
      (no_cron, (λ h. ground (arith, h)), omega int_laws, omega arith)

-- A policy whose start time comes between the first two readings of the clock.
abbrev starting : World
starting = record start {
  policy = record policy { spec = record spec { start_after = "2026-01-01T00:00:00Z" } };
}

abbrev late_start : Env
late_start = record env {
  calendar = record calendar { parse_rfc3339 = λ _. ok (pos (100 * hour + 1)) };
}

start_between_readings_example :
    let (r, u) = handle_guards late_start starting in
    (d : Duration) × (r ≡ (some (requeue d), none))
    × (d ≤ℤ pos 0)
    × (u.calls ≡ [])
    × (u.policy ≡ starting.policy)
start_between_readings_example =
    start_between_readings late_start starting (pos (100 * hour + 1)) refl
      (str_ne "2026-01-01T00:00:00Z" "" refl) refl (omega arith) (omega arith)

parse_interval-hours_example : parse_interval calendar (decimal 36 <> "h") ≡ pos (36 * hour)
parse_interval-hours_example = parse_interval-hours calendar 36 (omega arith)
