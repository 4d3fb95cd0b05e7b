-- ===== src/Scheduler/Reasons.antt =====
-- The reason that NextRun of internal/scheduler/scheduler.go gives for its delay.
use eks_ami_operator.Base.{◌≡◌, ◌⊎◌, inl, inr, refl, not, Bool-cases, str_eq}
use eks_ami_operator.Go.Time.{Time, Duration}
use eks_ami_operator.Go.Error.{Result, ok, err}
use eks_ami_operator.Api.{Policy}
use eks_ami_operator.World.{Calendar, Location, Schedule}
use eks_ami_operator.Scheduler.{
  Next, cron_or_interval, next_run, next_run_interval, reason_cron, reason_interval,
}

-- The delay is a cron delay, or it is that of the interval.
abbrev pub IsExplained : Duration → Next → Type 0
IsExplained interval n =
    (n.reason ≡ reason_cron) ⊎ ((n.reason ≡ reason_interval) × (n.delay ≡ interval))

cron_or_interval-IsExplained :
    (interval : Duration) (r : Result Location) (s : Result Schedule) (t : Time)
    → IsExplained interval (cron_or_interval interval r s t)
cron_or_interval-IsExplained interval (err e) s t = inr (refl, refl)
cron_or_interval-IsExplained interval (ok loc) (err e) t = inr (refl, refl)
cron_or_interval-IsExplained interval (ok loc) (ok schedule) t = inl refl

pub next_run_cases :
    (cal : Calendar) (t last : Time) (p : Policy)
    → IsExplained (next_run_interval cal t last p) (next_run cal t last p)
unfolding next_run
next_run_cases cal t last p = elim (Bool-cases (not (str_eq p.spec.schedule_cron ""))) [
  | inl cron ↦ rw cron (cron_or_interval-IsExplained _ _ _ t)
  | inr empty ↦ rw empty (inr (refl, refl))
]
