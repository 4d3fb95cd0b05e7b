-- ===== src/Scheduler/Hours.antt =====
-- What ParseInterval of internal/scheduler/scheduler.go makes of an interval in hours.
use eks_ami_operator.Base.{ℕ, ◌*◌, ◌^◌, ◌<◌, ◌≡◌, ◌∙◌, ap, refl}
use eks_ami_operator.Base.Int.{pos}
use eks_ami_operator.Go.Time.{Duration, hour}
use eks_ami_operator.Go.Text.{◌<>◌}
use eks_ami_operator.Go.Error.{Result, ok, err}
use eks_ami_operator.Go.Scan.Decimal.{decimal}
use eks_ami_operator.Go.ParseDuration.{parse_duration}
use eks_ami_operator.Go.ParseDuration.Hours.{parse_duration-hours}
use eks_ami_operator.World.{Calendar}
use eks_ami_operator.Scheduler.{parse_interval}

abbrev or_day : Result Duration → Duration
or_day (ok interval) = interval
or_day (err _) = pos (24 * hour)

same_day :
    (r : Result Duration) → (elim r [ ok interval ↦ interval | err _ ↦ pos (24 * hour) ]) ≡ or_day r
same_day (ok interval) = refl
same_day (err e) = refl

module _ (cal : Calendar) where
  -- An interval that is printed as a number of hours, such as "24h", is read to these hours, if they
  -- fit in a duration of 64 bits.
  pub parse_interval-hours :
      (n : ℕ) → n * hour < 2 ^ 63 → parse_interval cal (decimal n <> "h") ≡ pos (n * hour)
  unfolding parse_interval
  parse_interval-hours n fits =
      same_day (parse_duration cal.scale_fraction (decimal n <> "h"))
      ∙ ap or_day (parse_duration-hours cal.scale_fraction n fits)
