-- ===== src/Scheduler/Interval.antt =====
-- When an interval schedule is due: nextRunInterval of internal/scheduler/scheduler.go.
use eks_ami_operator.Base.{◌≡◌, ◌⊎◌, ◌↔◌, arith}
use eks_ami_operator.Base.Int.{ℤ, pos, ◌+ℤ◌, ◌≤ℤ◌, int_laws}
use eks_ami_operator.Go.Time.{Time, zero_time, sub_pos, sub-le}
use eks_ami_operator.Api.{Policy}
use eks_ami_operator.World.{Calendar}
use eks_ami_operator.Scheduler.{parse_interval, next_run_interval}

+ℤ_mono_left : (a b c : ℤ) → a ≤ℤ b → a +ℤ c ≤ℤ b +ℤ c
+ℤ_mono_left a b c h = omega int_laws

module _ (cal : Calendar) (t last : Time) (p : Policy) where
  due_if :
      next_run_interval cal t last p ≡ pos 0
      → (last ≡ zero_time) ⊎ (last +ℤ parse_interval cal p.spec.check_interval ≤ℤ t)
  unfolding next_run_interval
  due_if h = ground (arith, sub_pos (last +ℤ parse_interval cal p.spec.check_interval) t)

  if_due :
      (last ≡ zero_time) ⊎ (last +ℤ parse_interval cal p.spec.check_interval ≤ℤ t)
      → next_run_interval cal t last p ≡ pos 0
  unfolding next_run_interval
  if_due h = ground arith

  -- A policy on an interval is due exactly when it was never checked or its interval has passed.
  pub next_run_interval_due :
      (next_run_interval cal t last p ≡ pos 0)
      ↔ ((last ≡ zero_time) ⊎ (last +ℤ parse_interval cal p.spec.check_interval ≤ℤ t))
  next_run_interval_due = (due_if, if_due)

  -- The delay is never negative.
  pub next_run_interval_nonneg : pos 0 ≤ℤ next_run_interval cal t last p
  unfolding next_run_interval
  next_run_interval_nonneg =
      ground (arith, sub_pos (last +ℤ parse_interval cal p.spec.check_interval) t)

  -- It is no longer than the interval, for a check that lies in the past.
  pub next_run_interval-le :
      last ≤ℤ t
      → pos 0 ≤ℤ parse_interval cal p.spec.check_interval
      → next_run_interval cal t last p ≤ℤ parse_interval cal p.spec.check_interval
  unfolding next_run_interval
  next_run_interval-le h k =
      let d = parse_interval cal p.spec.check_interval in
      ground (arith, sub-le (last +ℤ d) t d k, +ℤ_mono_left last t d h)
