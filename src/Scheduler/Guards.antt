-- ===== src/Scheduler/Guards.antt =====
-- When ShouldSkip of internal/scheduler/scheduler.go lets a policy through.
use eks_ami_operator.Base.{
  suc, ◌≡◌, ◌⊎◌, ◌↔◌, inl, inr, refl, arith, true, false, str_eq, str_eq_sound, str_eq_complete,
  none, if◌then◌else◌,
}
use eks_ami_operator.Base.Int.{◌+ℤ◌, ◌≤ℤ◌, +ℤ_parts, -ℤ_parts}
use eks_ami_operator.Go.Time.{Time, zero_time, sub-lt_iff}
use eks_ami_operator.Go.Error.{Result, ok, err}
use eks_ami_operator.Api.{Policy}
use eks_ami_operator.World.{Env, World}
use eks_ami_operator.Scheduler.{Skip, min_interval, using_cron, cooldown, start_after, should_skip}

-- Neither a delay nor an error.
abbrev pub Passes : Skip → Type 0
Passes s = (s.skip ≡ false) × (s.error ≡ none)

-- The cooldown of six hours does not hold a policy back at the instant `t`.
abbrev pub IsCooled : Policy → Time → Type 0
IsCooled p t =
    (using_cron p.spec ≡ true)
    ⊎ ((p.status.last_upgrade_attempt ≡ zero_time)
        ⊎ (p.status.last_upgrade_attempt +ℤ min_interval ≤ℤ t))

module _ (env : Env) (p : Policy) where
  IsCooled-of_Passes : (w : World) → Passes (cooldown env p w).0 → IsCooled p (env.now w.tick)
  unfolding cooldown
  IsCooled-of_Passes w h =
      let t = env.now w.tick in
      let last = p.status.last_upgrade_attempt in
      ground (
        arith,
        sub-lt_iff t last min_interval (omega arith) (omega arith),
        -ℤ_parts t last,
        +ℤ_parts last min_interval,
      )

  Passes-of_cooled : (w : World) → IsCooled p (env.now w.tick) → Passes (cooldown env p w).0
  unfolding cooldown
  Passes-of_cooled w h =
      let t = env.now w.tick in
      let last = p.status.last_upgrade_attempt in
      ground (
        arith,
        sub-lt_iff t last min_interval (omega arith) (omega arith),
        -ℤ_parts t last,
        +ℤ_parts last min_interval,
      )

  -- The start time is absent, or a valid instant that has come.
  abbrev pub IsStarted : Time → Type 0
  IsStarted t =
      (p.spec.start_after ≡ "")
      ⊎ ((start : Time) × (env.calendar.parse_rfc3339 p.spec.start_after ≡ ok start) × (start ≤ℤ t))

  -- With a start time the cooldown reads the clock a second time.
  abbrev pub cooldown_clock : World → Time
  cooldown_clock w = env.now (if str_eq p.spec.start_after "" then w.tick else suc w.tick)

  parsed_of_Passes :
      (w : World) (r : Result Time)
      → Passes (start_after env p r w).0
      → ((start : Time) × (r ≡ ok start) × (start ≤ℤ env.now w.tick))
        × IsCooled p (env.now (suc w.tick))
  unfolding start_after
  parsed_of_Passes w (err e) h = cc
  parsed_of_Passes w (ok start) h = (
    (start, refl, ground arith),
    ground (arith, IsCooled-of_Passes (record w { tick = suc (w.tick) })),
  )

  Passes-of_parsed :
      (w : World) (start : Time)
      → start ≤ℤ env.now w.tick
      → IsCooled p (env.now (suc w.tick))
      → Passes (start_after env p (ok start) w).0
  unfolding start_after
  Passes-of_parsed w start h k = ground (arith, Passes-of_cooled (record w { tick = suc (w.tick) }))

  pub conditions_of_Passes :
      (w : World)
      → Passes (should_skip env p w).0
      → (p.spec.paused ≡ false) × IsStarted (env.now w.tick) × IsCooled p (cooldown_clock w)
  unfolding should_skip
  conditions_of_Passes w h = ground (
    arith,
    IsCooled-of_Passes w,
    parsed_of_Passes w (env.calendar.parse_rfc3339 p.spec.start_after),
    str_eq_sound p.spec.start_after "",
  )

  pub Passes-of_conditions :
      (w : World)
      → (p.spec.paused ≡ false) × IsStarted (env.now w.tick) × IsCooled p (cooldown_clock w)
      → Passes (should_skip env p w).0
  unfolding should_skip
  Passes-of_conditions w (running, inl absent, cooled) =
      ground (arith, Passes-of_cooled w, str_eq_complete p.spec.start_after "")
  Passes-of_conditions w (running, inr (start, parsed, reached), cooled) = ground (
    arith,
    Passes-of_cooled w,
    Passes-of_parsed w start reached,
    str_eq_complete p.spec.start_after "",
  )

  -- ShouldSkip lets a policy through, with neither a delay nor an error, exactly when the policy is
  -- not paused, its start time is absent or valid and reached, and it is on cron, or was never
  -- upgraded, or was last upgraded at least six hours ago.
  pub should_skip-Passes_iff :
      (w : World)
      → Passes (should_skip env p w).0
        ↔ ((p.spec.paused ≡ false) × IsStarted (env.now w.tick) × IsCooled p (cooldown_clock w))
  should_skip-Passes_iff w = (conditions_of_Passes w, Passes-of_conditions w)
