-- ===== src/Controller/Delay.antt =====
-- computeNextDelay of internal/controller/nodegroupupgradepolicy_controller.go: when the delay is
-- positive, so that controller-runtime queues the policy again.
use eks_ami_operator.Base.{
  ◌^◌, ◌≡◌, inl, inr, refl, arith, str_eq, str_eq_sound, str_ne, sym, ◌∙◌, ◌&&◌, Bool-cases,
}
use eks_ami_operator.Base.Int.{pos, negsuc, ◌≤ℤ◌, ◌<ℤ◌, leb_ℤ, leb_ℤ→gt, int_laws}
use eks_ami_operator.Go.Time.{Time, Duration, add}
use eks_ami_operator.Api.{Policy}
use eks_ami_operator.World.{Calendar, Env, IsRandom, World}
use eks_ami_operator.Scheduler.{
  Next, next_run, parse_interval, jitter, reason_cron, reason_interval,
}
use eks_ami_operator.Scheduler.Reasons.{next_run_cases}
use eks_ami_operator.Scheduler.Jitter.{jitter_bounds}
use eks_ami_operator.Scheduler.Interval.{next_run_interval-le}
use eks_ami_operator.Upgrade.{nudge}
use eks_ami_operator.Controller.Schedule.{
  nudged, with_fallback, jitter_interval, compute_next_delay,
}

module _ (cal : Calendar) (p : Policy) where
  abbrev interval : Duration
  interval = parse_interval cal p.spec.check_interval

  -- A delay that NextRun gives for the reason "interval" is at most the interval.
  abbrev IsBounded : Next → Type 0
  IsBounded n = n.reason ≡ reason_interval → n.delay ≤ℤ interval

  next_run-IsBounded :
      (t last : Time) → last ≤ℤ t → pos 0 ≤ℤ interval → IsBounded (next_run cal t last p)
  next_run-IsBounded t last h k e = elim (next_run_cases cal t last p) [
    | inl cron ↦ absurd (str_ne reason_cron reason_interval refl (sym cron ∙ e))
    | inr (_, delay) ↦ rw delay (next_run_interval-le cal t last p h k)
  ]

  nudged-IsBounded :
      (t : Time) → p.status.last_checked ≤ℤ t → pos 0 ≤ℤ interval → IsBounded (nudged cal t p)
  unfolding nudged
  nudged-IsBounded t h k =
      let last = p.status.last_checked in
      let n = next_run cal t last p in
      elim (Bool-cases (leb_ℤ n.delay (pos 0) && str_eq n.reason reason_cron)) [
        | inl again ↦ rw again (next_run-IsBounded (add t nudge) last (omega (int_laws)) k)
        | inr once ↦ rw once (next_run-IsBounded t last h k)
      ]

  fallback-pos :
      (n : Next)
      → pos 0 <ℤ interval
      → IsBounded n
      → (pos 0 <ℤ (with_fallback cal p n).delay) × IsBounded (with_fallback cal p n)
  unfolding with_fallback
  fallback-pos n h k = elim (Bool-cases (leb_ℤ n.delay (pos 0))) [
    | inl spent ↦ rw spent (h, λ _. omega arith)
    | inr left ↦ rw left (leb_ℤ→gt n.delay (pos 0) left, k)
  ]

module _ (env : Env) (random : IsRandom env) where
  jitter-pos :
      (d : Duration) (w : World) → pos 0 <ℤ d → d ≤ℤ pos (2 ^ 62) → pos 0 <ℤ (jitter env d w).0
  jitter-pos (pos n) w h k =
      let (m, e, positive, _, _) = jitter_bounds env n w random (omega arith) (omega arith) in
      rw e (omega arith)
  jitter-pos (negsuc n) w h k = absurd (omega arith)

  jitter_interval-pos :
      (n : Next) (w : World)
      → pos 0 <ℤ n.delay
      → (n.reason ≡ reason_interval → n.delay ≤ℤ pos (2 ^ 62))
      → pos 0 <ℤ (jitter_interval env n w).0
  unfolding jitter_interval
  jitter_interval-pos n w h k = elim (Bool-cases (str_eq n.reason reason_interval)) [
    | inl e ↦ rw e (jitter-pos n.delay w h (k (str_eq_sound _ _ e)))
    | inr e ↦ rw e h
  ]

  -- With generators that draw below their bound, a positive interval of at most 2^62 nanoseconds and a last check that is not in the future,
  -- the delay that computeNextDelay gives is positive.
  pub compute_next_delay-pos :
      (w : World)
      → pos 0 <ℤ parse_interval env.calendar w.policy.spec.check_interval
      → parse_interval env.calendar w.policy.spec.check_interval ≤ℤ pos (2 ^ 62)
      → w.policy.status.last_checked ≤ℤ env.now w.tick
      → pos 0 <ℤ (compute_next_delay env w).0
  unfolding compute_next_delay
  compute_next_delay-pos w positive short past =
      let cal = env.calendar in
      let t = env.now w.tick in
      let n = nudged cal t w.policy in
      let (later, bounded) =
        fallback-pos cal w.policy n positive (nudged-IsBounded cal w.policy t past (omega arith)) in
      jitter_interval-pos (with_fallback cal w.policy n) _ later (λ e. omega (arith, bounded e))
