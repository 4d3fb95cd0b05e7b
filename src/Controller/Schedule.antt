-- ===== src/Controller/Schedule.antt =====
-- The schedule of a policy in the reconciler: computeNextDelay, whenToRunNext, handleScheduleGate
-- and handleGuards of internal/controller/nodegroupupgradepolicy_controller.go.
use eks_ami_operator.Base.{
  ◌*◌, Bool, true, false, not, ◌&&◌, String, str_eq, if◌then◌else◌, Option, none, some,
}
use eks_ami_operator.Base.Int.{pos, leb_ℤ}
use eks_ami_operator.Go.Time.{Time, Duration, minute, add}
use eks_ami_operator.Go.Error.{Error}
use eks_ami_operator.Api.{Policy}
use eks_ami_operator.Metrics.{seconds, next_run_seconds}
use eks_ami_operator.World.{Calendar, Env, M, ◌>>=◌, ◌>>◌, pure, policy, set_status, set_gauge}
use eks_ami_operator.World.Clock.{now}
use eks_ami_operator.World.Kube
use eks_ami_operator.Scheduler.{
  Next, Skip, next_run, parse_interval, jitter, should_skip, reason_cron, reason_interval,
}
use eks_ami_operator.Upgrade.{upgrade_status_in_progress, labels, nudge}

-- ctrl.Result; controller-runtime queues the object again only for a positive delay.
pub record CtrlResult : Type 0 where
  pub requeue_after : Duration

abbrev pub requeue : Duration → CtrlResult
requeue d = record { requeue_after = d }

-- `2 * time.Minute`
abbrev pub poll_delay : Duration
poll_delay = pos (2 * minute)

-- isInFlight
unfoldable pub is_in_flight : Policy → Bool
is_in_flight p =
    str_eq p.status.upgrade_status upgrade_status_in_progress && not (str_eq p.status.update_id "")

-- The second reading of the schedule in computeNextDelay, beyond the late tolerance.
unfoldable pub nudged : Calendar → Time → Policy → Next
nudged cal t p =
    let n = next_run cal t p.status.last_checked p in
    if leb_ℤ n.delay (pos 0) && str_eq n.reason reason_cron
    then next_run cal (add t nudge) p.status.last_checked p
    else n

abbrev pub reason_fallback : String
reason_fallback = "interval-fallback-after-immediate"

-- The safety net in computeNextDelay.
unfoldable pub with_fallback : Calendar → Policy → Next → Next
with_fallback cal p n =
    if leb_ℤ n.delay (pos 0)
    then record n { delay = parse_interval cal p.spec.check_interval; reason = reason_fallback }
    else n

module _ (env : Env) where
  -- Jitter on an interval, and none on cron.
  unfoldable pub jitter_interval : Next → M Duration
  jitter_interval n = if str_eq n.reason reason_interval then jitter env n.delay else pure n.delay

  -- computeNextDelay
  unfoldable pub compute_next_delay : M Duration
  compute_next_delay = do
    p ← policy
    t ← now env
    d ← jitter_interval (with_fallback env.calendar p (nudged env.calendar t p))
    set_gauge next_run_seconds (labels p) (seconds d)
    pure d

  -- The end of whenToRunNext.
  unfoldable pub gate : Time → Duration → M (Duration × Bool)
  gate t d = if leb_ℤ d (pos 0) then pure (pos 0, true) else (do
    u ← now env
    set_status (λ s. record s { last_scheduled_time = u; next_scheduled_time = add t d })
    Kube.update_status env
    pure (d, false))

  -- whenToRunNext: a delay, and whether the policy is due.
  unfoldable pub when_to_run_next : M (Duration × Bool)
  when_to_run_next = do
    p ← policy
    t ← now env
    d ← jitter_interval (next_run env.calendar t p.status.last_checked p)
    set_gauge next_run_seconds (labels p) (seconds d)
    gate t d

  abbrev pub gate_result : Duration × Bool → Option CtrlResult
  gate_result (d, true) = none
  gate_result (d, false) = some (requeue d)

  -- handleScheduleGate
  unfoldable pub handle_schedule_gate : M (Option CtrlResult)
  handle_schedule_gate = do
    p ← policy
    (if is_in_flight p then pure none else (do r ← when_to_run_next; pure (gate_result r)))

  -- What handleGuards makes of the answer of ShouldSkip.
  unfoldable pub on_skip : Skip → Option Error → M (Option CtrlResult × Option Error)
  on_skip s (some e) = do d ← compute_next_delay; pure (some (requeue d), some e)
  on_skip s none =
      if s.skip
      then (do d ← jitter env s.requeue_after; pure (some (requeue d), none))
      else pure (none, none)

  -- handleGuards
  unfoldable pub handle_guards : M (Option CtrlResult × Option Error)
  handle_guards = do p ← policy; s ← should_skip env p; on_skip s s.error
