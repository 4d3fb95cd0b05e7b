-- ===== src/Scheduler.antt =====
-- internal/scheduler/scheduler.go.
pub mod Jitter
pub mod Hours
pub mod Interval
pub mod Cron
pub mod Guards
pub mod Reasons
use eks_ami_operator.Base.{
  ℕ, ◌*◌, ◌/◌, ◌==◌, ◌≡◌, refl, Bool, true, false, not, ◌||◌, ◌&&◌, String, str_eq, Option, none,
  some, if◌then◌else◌,
}
use eks_ami_operator.Base.Int.{ℤ, pos, negsuc, ◌-ℤ◌, ltb_ℤ, leb_ℤ, eqb_ℤ, pos_part}
use eks_ami_operator.Go.Time.{
  Time, Duration, nanosecond, second, minute, hour, is_zero, before, after, add, sub, add64, sub64,
}
use eks_ami_operator.Go.Text.{trim_space}
use eks_ami_operator.Go.Error.{Error, wrapped, Result, ok, err}
use eks_ami_operator.Go.ParseDuration.{parse_duration}
use eks_ami_operator.Api.{Policy, Spec}
use eks_ami_operator.World.{Location, Schedule, Calendar, Env, M, World, ◌>>=◌, ◌>>◌, pure}
use eks_ami_operator.World.Clock.{now, int63n, intn}

abbrev pub reason_cron : String
reason_cron = "cron"

abbrev pub reason_interval : String
reason_interval = "interval"

-- The two tolerances of NextRun, and the cooldown of ShouldSkip.
abbrev pub early_tolerance : Duration
early_tolerance = pos second

abbrev pub late_tolerance : Duration
late_tolerance = pos (5 * second)

abbrev pub min_interval : Duration
min_interval = pos (6 * hour)

-- ParseInterval
unfoldable pub parse_interval : Calendar → String → Duration
parse_interval cal s = elim (parse_duration cal.scale_fraction s) [
  | ok interval ↦ interval
  | err _ ↦ pos (24 * hour)
]

-- nextRunInterval
unfoldable pub next_run_interval : Calendar → Time → Time → Policy → Duration
next_run_interval cal t last_checked p =
    let target = add last_checked (parse_interval cal p.spec.check_interval) in
    if is_zero last_checked then pos 0 else if before t target then sub target t else pos 0

-- The part of NextRun behind a valid zone and a valid expression. It is called with `base`, the
-- instant `now` in the zone `loc`.
unfoldable pub cron_delay : Schedule → Location → Time → Duration
cron_delay schedule loc base =
    let next = schedule loc (base -ℤ nanosecond) in
    let prev = schedule loc (base -ℤ pos minute) in
    if eqb_ℤ next base || leb_ℤ (sub next base) early_tolerance
    then pos 0
    else if after base prev && leb_ℤ (sub base prev) late_tolerance
    then pos 0
    else sub next base

-- The zone that a cron schedule is read in: UTC unless a time zone is named.
abbrev pub zone : Calendar → String → Result Location
zone cal tz = if str_eq tz "" then ok "UTC" else cal.load_location tz

-- A delay, the reason for it, and an error to report.
pub record Next : Type 0 where
  pub delay : Duration
  pub reason : String
  pub error : Option Error

abbrev pub cron_or_interval : Duration → Result Location → Result Schedule → Time → Next
cron_or_interval interval (err e) _ t = record {
  delay = interval;
  reason = reason_interval;
  error = some (wrapped "invalid scheduleTimezone" e);
}
cron_or_interval interval (ok loc) (err e) t = record {
  delay = interval;
  reason = reason_interval;
  error = some (wrapped "invalid scheduleCron" e);
}
cron_or_interval interval (ok loc) (ok schedule) t = record {
  delay = cron_delay schedule loc t;
  reason = reason_cron;
  error = none;
}

-- NextRun
unfoldable pub next_run : Calendar → Time → Time → Policy → Next
next_run cal t last_checked p =
    let interval = next_run_interval cal t last_checked p in
    if not (str_eq p.spec.schedule_cron "")
    then cron_or_interval interval (zone cal p.spec.schedule_timezone)
        (cal.parse_cron p.spec.schedule_cron) t
    else record { delay = interval; reason = reason_interval; error = none }

-- What ShouldSkip returns.
pub record Skip : Type 0 where
  pub skip : Bool
  pub requeue_after : Duration
  pub error : Option Error

abbrev go_on : Skip
go_on = record { skip = false; requeue_after = pos 0; error = none }

abbrev pub using_cron : Spec → Bool
using_cron s = not (str_eq (trim_space s.schedule_cron) "")

module _ (env : Env) where
  -- Jitter; `int64(d) / 10` is exact, since d is positive there.
  unfoldable pub jitter : Duration → M Duration
  jitter d =
      let max = pos_part d / 10 in
      if leb_ℤ d (pos 0) then pure d else if max == 0 then pure d else (do
        delta ← int63n env max
        side ← intn env 2
        pure (if side == 0 then sub64 d (pos delta) else add64 d (pos delta)))

  -- The cooldown at the end of ShouldSkip.
  unfoldable pub cooldown : Policy → M Skip
  cooldown p =
      let last_attempt = p.status.last_upgrade_attempt in
      if using_cron p.spec then pure go_on else if is_zero last_attempt then pure go_on else (do
        t ← now env
        let since = sub t last_attempt
        pure (
            if ltb_ℤ since min_interval
            then record { skip = true; requeue_after = sub64 min_interval since; error = none }
            else go_on))

  -- The test of startAfter in ShouldSkip, which reads the clock once for the test and once more
  -- for the delay.
  unfoldable pub start_after : Policy → Result Time → M Skip
  start_after p (err e) = pure (record {
    skip = false;
    requeue_after = pos 0;
    error = some (wrapped "invalid StartAfter format" e);
  })
  start_after p (ok start) = do
    t ← now env
    (if before t start
        then (do
          u ← now env
          pure (record { skip = true; requeue_after = sub start u; error = none }))
        else cooldown p)

  -- ShouldSkip
  unfoldable pub should_skip : Policy → M Skip
  should_skip p =
      if p.spec.paused
      then pure (record { skip = true; requeue_after = pos 0; error = none })
      else if not (str_eq p.spec.start_after "")
      then start_after p (env.calendar.parse_rfc3339 p.spec.start_after)
      else cooldown p
