-- ===== src/Scheduler/Cron.antt =====
-- When a cron schedule is due: the cron branch of NextRun in internal/scheduler/scheduler.go,
-- against the instants at which the expression fires.
use eks_ami_operator.Base.{◌≡◌, ◌≢◌, ◌⊎◌, ◌↔◌, inl, inr, arith}
use eks_ami_operator.Base.Int.{pos, ◌+ℤ◌, ◌-ℤ◌, ◌≤ℤ◌, ◌<ℤ◌, le_or_lt, int_laws, +ℤ_parts, -ℤ_parts}
use eks_ami_operator.Go.Time.{Time, nanosecond, minute, sub, sub_pos, sub-le_iff}
use eks_ami_operator.World.{Location, Schedule}
use eks_ami_operator.Scheduler.{cron_delay, early_tolerance, late_tolerance}

-- What robfig/cron documents of Next, for an expression that fires again: the least instant of
-- the expression that is later. A five-field expression fires at whole minutes, so two of its
-- instants are a minute apart at least.
pub record IsNext (next : Time → Time) (Fires : Time → Type 0) : Type 0 where
  pub fires : (t : Time) → Fires (next t)
  pub later : (t : Time) → t <ℤ next t
  pub least : (t u : Time) → Fires u → t <ℤ u → next t ≤ℤ u
  pub apart : (t u : Time) → Fires t → Fires u → t <ℤ u → t +ℤ pos minute ≤ℤ u

module _ (schedule : Schedule) (loc : Location) (Fires : Time → Type 0)
    (lawful : IsNext (schedule loc) Fires) (base : Time) where
  -- An instant of the expression that the tolerances reach from `base`.
  abbrev pub IsNear : Time → Type 0
  IsNear u = (base ≤ℤ u +ℤ late_tolerance) × (u ≤ℤ base +ℤ early_tolerance)

  abbrev next : Time
  next = schedule loc (base -ℤ nanosecond)

  abbrev prev : Time
  prev = schedule loc (base -ℤ pos minute)

  -- The two tests, over the integers.
  abbrev Early : Type 0
  Early = next ≤ℤ base +ℤ early_tolerance

  abbrev Late : Type 0
  Late = (prev <ℤ base) × (base ≤ℤ prev +ℤ late_tolerance)

  base-le-next : base ≤ℤ next
  base-le-next = omega (int_laws, lawful.later (base -ℤ nanosecond))

  tests_of_due : cron_delay schedule loc base ≡ pos 0 → Early ⊎ Late
  unfolding cron_delay
  tests_of_due h = ground (
    arith,
    sub-le_iff next base early_tolerance (omega arith) (omega arith),
    sub-le_iff base prev late_tolerance (omega arith) (omega arith),
    -ℤ_parts next base,
    -ℤ_parts base prev,
    +ℤ_parts base early_tolerance,
    +ℤ_parts prev late_tolerance,
    sub_pos next base,
    base-le-next,
  )

  due_of_tests : Early ⊎ Late → cron_delay schedule loc base ≡ pos 0
  unfolding cron_delay
  due_of_tests h = ground (
    arith,
    sub-le_iff next base early_tolerance (omega arith) (omega arith),
    sub-le_iff base prev late_tolerance (omega arith) (omega arith),
    -ℤ_parts next base,
    -ℤ_parts base prev,
    +ℤ_parts base early_tolerance,
    +ℤ_parts prev late_tolerance,
  )

  IsNear-of_due : cron_delay schedule loc base ≡ pos 0 → (u : Time) × Fires u × IsNear u
  IsNear-of_due h = elim (tests_of_due h) [
    | inl early ↦ (next, lawful.fires _, (omega (int_laws, base-le-next), early))
    | inr late ↦ (prev, lawful.fires _, (late.1, omega (int_laws, late.0)))
  ]

  -- An instant that lies less than a minute back is the one that `prev` finds.
  le_prev : (u : Time) → Fires u → base -ℤ pos minute <ℤ u → u <ℤ base → u ≤ℤ prev
  le_prev u f h below = elim (le_or_lt u prev) [
    | inl le ↦ le
    | inr lt ↦ absurd (
        omega
          (int_laws, lawful.apart prev u (lawful.fires _) f lt, lawful.later (base -ℤ pos minute)))
  ]

  due_of_near : (u : Time) → Fires u → IsNear u → cron_delay schedule loc base ≡ pos 0
  due_of_near u f n = elim (le_or_lt base u) [
    | inl ahead ↦
        due_of_tests
          (inl (omega (int_laws, n.1, lawful.least (base -ℤ nanosecond) u f (omega int_laws))))
    | inr back ↦
        let h : base -ℤ pos minute <ℤ u = omega (int_laws, n.0) in
        due_of_tests
          (inr (omega (int_laws, lawful.least _ u f h), omega (int_laws, n.0, le_prev u f h back)))
  ]

  -- For an expression whose Next is as robfig/cron documents it, a cron schedule is due exactly when
  -- the expression fires at most one second ahead or at most five seconds ago.
  pub cron_due_iff : (cron_delay schedule loc base ≡ pos 0) ↔ ((u : Time) × Fires u × IsNear u)
  cron_due_iff = (IsNear-of_due, λ n. due_of_near n.0 n.1 n.2)

  waits_value : cron_delay schedule loc base ≢ pos 0 → cron_delay schedule loc base ≡ sub next base
  unfolding cron_delay
  waits_value h = ground arith

  -- For an expression whose Next is as robfig/cron documents it, a cron schedule that is not due waits
  -- for the next instant of the expression, which is later.
  pub cron_waits :
      cron_delay schedule loc base ≢ pos 0
      → (cron_delay schedule loc base ≡ sub next base)
        × (pos 0 <ℤ cron_delay schedule loc base)
        × Fires next
        × (base <ℤ next)
  cron_waits h =
      let not_early : ¬ Early = λ early. h (due_of_tests (inl early)) in
      (
        waits_value h,
        rw (waits_value h) (sub_pos next base (omega int_laws)),
        lawful.fires _,
        omega int_laws,
      )
