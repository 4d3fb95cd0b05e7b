-- ===== src/Controller/Reconcile.antt =====
-- Reconcile of internal/controller/nodegroupupgradepolicy_controller.go, stage by stage.
use eks_ami_operator.Base.{Bool, true, false, String, [], ◌∷◌, if◌then◌else◌, Option, none, some}
use eks_ami_operator.Base.Int.{pos}
use eks_ami_operator.Go.Time.{add}
use eks_ami_operator.Go.Error.{Error}
use eks_ami_operator.Metrics.{number, outdated_node_groups}
use eks_ami_operator.World.{Env, M, Nodegroup, ◌>>=◌, ◌>>◌, pure, policy, set_status, set_gauge}
use eks_ami_operator.World.Clock.{now}
use eks_ami_operator.World.Kube
use eks_ami_operator.Finalizer.{handle_finalizer}
use eks_ami_operator.Aws.{AwsClients}
use eks_ami_operator.Upgrade.{process_upgrade}
use eks_ami_operator.Controller.Schedule.{
  CtrlResult, requeue, poll_delay, is_in_flight, compute_next_delay, handle_schedule_gate,
  handle_guards,
}
use eks_ami_operator.Controller.Requeue.{
  OrRequeue, continue, return, get_clients_or_requeue, describe_nodegroup_or_requeue,
  describe_cluster_or_requeue, resolve_latest_or_requeue,
}

abbrev pub Answer : Type 0
Answer = CtrlResult × Option Error

-- ctrl.Result{}
abbrev pub no_requeue : CtrlResult
no_requeue = requeue (pos 0)

abbrev pub proceed : {A : Type 0} → (A → M Answer) → OrRequeue A → M Answer
proceed f (continue a) = f a
proceed f (return res e) = pure (res, e)

-- A step that may end the reconcile, and the rest of it.
infixl 5 ◌>>?◌
abbrev pub ◌>>?◌ : {A : Type 0} → M (OrRequeue A) → (A → M Answer) → M Answer
m >>? f = m >>= proceed f

module _ (env : Env) where
  -- The end of a run with nothing in flight: the status says when the next one comes.
  unfoldable pub schedule_next : M Answer
  schedule_next = do
    d ← compute_next_delay env
    t ← now env
    u ← now env
    set_status (λ s. record s { last_scheduled_time = t; next_scheduled_time = add u d })
    Kube.update_status env
    pure (requeue d, none)

  -- What follows ProcessUpgrade.
  unfoldable pub after_upgrade : Option Error → M Answer
  after_upgrade (some e) = do d ← compute_next_delay env; pure (requeue d, some e)
  after_upgrade none = do
    p ← policy
    (if is_in_flight p then pure (requeue poll_delay, none) else schedule_next)

  -- From the reset of the outdated count to the end.
  unfoldable pub run_upgrade : AwsClients → Nodegroup → String → M Answer
  run_upgrade c ng latest_release = do
    p ← policy
    set_gauge outdated_node_groups (p.spec.cluster_name ∷ []) (number 0)
    e ← process_upgrade env (env.to_string ng.release_version) latest_release c.eks
    after_upgrade e

  -- The AWS work of a reconcile.
  unfoldable pub aws_work : M Answer
  aws_work = get_clients_or_requeue env >>? λ c. describe_nodegroup_or_requeue env c >>? λ ng.
      describe_cluster_or_requeue env c >>? λ v.
      resolve_latest_or_requeue env c ng v >>? λ latest. run_upgrade c ng latest.1

  unfoldable pub after_gate : Option CtrlResult → M Answer
  after_gate (some res) = pure (res, none)
  after_gate none = aws_work

  unfoldable pub after_guards : Option CtrlResult × Option Error → M Answer
  after_guards (some res, e) = pure (res, e)
  after_guards (none, _) = do g ← handle_schedule_gate env; after_gate g

  -- `if done || err != nil { return ctrl.Result{}, err }`
  unfoldable pub after_finalizer : Bool × Option Error → M Answer
  after_finalizer (true, e) = pure (no_requeue, e)
  after_finalizer (false, some e) = pure (no_requeue, some e)
  after_finalizer (false, none) = do g ← handle_guards env; after_guards g

  unfoldable pub after_get : Option Error → M Answer
  after_get (some e) = pure (no_requeue, env.ignore_not_found e)
  after_get none = do f ← handle_finalizer env; after_finalizer f

  -- Reconcile
  unfoldable pub reconcile : String → M Answer
  reconcile name = do e ← Kube.get env name; after_get e
