-- ===== src/Examples/Queueing.antt =====
-- A test of the requeue.
use eks_ami_operator.Base.{◌≡◌, refl, sym, ap, ◌*◌, arith, false, none}
use eks_ami_operator.Base.Int.{pos}
use eks_ami_operator.Go.Time.{hour}
use eks_ami_operator.Go.Text.{trim_space}
use eks_ami_operator.Go.ParseDuration.{parse_duration}
use eks_ami_operator.Go.Error.{Result, ok, err}
use eks_ami_operator.Api.{Policy}
use eks_ami_operator.World.{IsMonotone}
use eks_ami_operator.Scheduler.{parse_interval, should_skip, cooldown}
use eks_ami_operator.Controller.{after_finalizer}
use eks_ami_operator.Controller.Ready.{IsStore, IsReady, Queues}
use eks_ami_operator.Controller.Queued.{reconcile-Queues}
use eks_ami_operator.Examples.{calendar, env, start, policy, env-IsRetry, env-IsRandom}

env-IsMonotone : IsMonotone env
env-IsMonotone k = omega arith

ok-same : (p q : Policy) → ◌≡◌ {A = Result Policy} (ok p) (ok q) → q ≡ p
ok-same p q e = sym (ap (λ r. elim r [ ok x ↦ x | err _ ↦ q ]) e)

env-IsStore : IsStore env
env-IsStore = record {
  same = λ k p q e.
      (ap (λ x. x.spec) (ok-same p q e), ap (λ x. x.status.last_checked) (ok-same p q e));
}

day : parse_interval calendar "24h" ≡ pos (24 * hour)
unfolding parse_interval parse_duration
day = refl

start-IsReady : IsReady env start
start-IsReady = (rw day (omega arith), rw day (omega arith), omega arith)

passes : (should_skip env policy start).0.skip ≡ false
unfolding should_skip cooldown trim_space
passes = refl

reconcile-Queues_example : Queues (after_finalizer env (false, none) start).0.0
reconcile-Queues_example =
    reconcile-Queues env env-IsRandom env-IsMonotone env-IsStore env-IsRetry start start-IsReady
      passes
