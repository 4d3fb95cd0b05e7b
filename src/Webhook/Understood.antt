-- ===== src/Webhook/Understood.antt =====
-- What the scheduler of internal/scheduler/scheduler.go makes of a specification that
-- internal/webhook/v1alpha1/nodegroupupgradepolicy_webhook.go accepts.
use eks_ami_operator.Base.{◌≡◌, ◌⊎◌, String, none}
use eks_ami_operator.Go.Time.{Time}
use eks_ami_operator.Go.Error.{ok}
use eks_ami_operator.Go.ParseDuration.{parse_duration}
use eks_ami_operator.Api.{Policy}
use eks_ami_operator.World.{Calendar, Location, Schedule, World}
use eks_ami_operator.Scheduler.{
  parse_interval, next_run, next_run_interval, zone, cron_delay, reason_cron, reason_interval,
}

-- With a schedule on cron, NextRun is about its expression, and without one about the interval.
abbrev pub IsScheduled : Calendar → Time → Time → Policy → Type 0
IsScheduled cal t last p =
    ((p.spec.schedule_cron ≡ "")
      × (next_run cal t last p ≡ record {
        delay = next_run_interval cal t last p;
        reason = reason_interval;
        error = none;
      }))
    ⊎ ((l : Location) × (schedule : Schedule) × (cal.parse_cron p.spec.schedule_cron ≡ ok schedule)
        × (zone cal p.spec.schedule_timezone ≡ ok l)
        × (next_run cal t last p
            ≡ record { delay = cron_delay schedule l t; reason = reason_cron; error = none }))

-- An interval that is given is the one that is used.
abbrev pub IsUsed : Calendar → String → Type 0
IsUsed cal s = (s ≡ "") ⊎ (parse_duration cal.scale_fraction s ≡ ok (parse_interval cal s))
