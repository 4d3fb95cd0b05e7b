-- ===== src/Controller/Requeue.antt =====
-- The reconciler's calls of AWS, each with what it does on an error: getClientsOrRequeue,
-- describeNodegroupOrRequeue, describeClusterOrRequeue and resolveLatestOrRequeue of
-- internal/controller/nodegroupupgradepolicy_controller.go.
use eks_ami_operator.Base.{String, if◌then◌else◌, Option, none, some}
use eks_ami_operator.Go.Error.{Error, Result, ok, err, is_al2_unsupported}
use eks_ami_operator.Metrics.{number}
use eks_ami_operator.World.{Env, M, Nodegroup, ◌>>=◌, ◌>>◌, pure, policy, set_status}
use eks_ami_operator.World.Kube
use eks_ami_operator.Aws.{
  AwsClients, new_aws_clients, describe_nodegroup, describe_cluster, resolve_latest_ami,
}
use eks_ami_operator.Upgrade.{
  upgrade_status_skipped, set_upgrade_status, set_compliance, count_attempt,
}
use eks_ami_operator.Controller.Conditions.{set_ami_compliance_condition, set_upgrade_condition}
use eks_ami_operator.Controller.Schedule.{
  CtrlResult, requeue, poll_delay, is_in_flight, compute_next_delay,
}

-- A value to go on with, or the result of the reconcile.
pub data OrRequeue (A : Type 0) : Type 0 where
  continue : A → OrRequeue A
  return : CtrlResult → Option Error → OrRequeue A

module _ (env : Env) where
  -- Requeue by the schedule, and report `e`.
  abbrev pub by_schedule : {A : Type 0} → Option Error → M (OrRequeue A)
  by_schedule e = do d ← compute_next_delay env; pure (return (requeue d) e)

  -- While an update is in flight, requeue soon and report nothing.
  abbrev pub soon_or : {A : Type 0} → Option Error → M (OrRequeue A)
  soon_or e = do
    p ← policy
    (if is_in_flight p then pure (return (requeue poll_delay) none) else by_schedule e)

  unfoldable pub on_clients : Result AwsClients → M (OrRequeue AwsClients)
  on_clients (ok c) = pure (continue c)
  on_clients (err e) = soon_or (some e)

  -- getClientsOrRequeue, with getAWSClients
  unfoldable pub get_clients_or_requeue : M (OrRequeue AwsClients)
  get_clients_or_requeue = do p ← policy; r ← new_aws_clients env p.spec.region; on_clients r

  unfoldable pub on_nodegroup : Result Nodegroup → M (OrRequeue Nodegroup)
  on_nodegroup (ok ng) = pure (continue ng)
  on_nodegroup (err _) = soon_or none

  -- describeNodegroupOrRequeue; Reconcile returns no error with its result.
  unfoldable pub describe_nodegroup_or_requeue : AwsClients → M (OrRequeue Nodegroup)
  describe_nodegroup_or_requeue c = do
    p ← policy
    r ← describe_nodegroup env c.eks p.spec.cluster_name p.spec.node_group_name
    on_nodegroup r

  unfoldable pub on_cluster : Result String → M (OrRequeue String)
  on_cluster (ok v) = pure (continue v)
  on_cluster (err e) = by_schedule (some e)

  -- describeClusterOrRequeue
  unfoldable pub describe_cluster_or_requeue : AwsClients → M (OrRequeue String)
  describe_cluster_or_requeue c = do
    p ← policy
    r ← describe_cluster env c.eks p.spec.cluster_name
    on_cluster r

  -- The branch of an AL2 group on a version that has no AL2 image.
  unfoldable pub set_unsupported : M (Unit {0})
  set_unsupported = do
    p ← policy
    set_status (set_upgrade_status upgrade_status_skipped)
    set_upgrade_condition env "False" "UnsupportedAMI"
        "AL2 AMI is not available for this EKS version; create a new node group on AL2023 and migrate."
    set_ami_compliance_condition env "False" "UnsupportedAMI"
        "AL2 AMI not published for this EKS version."
    set_compliance p (number 0)
    count_attempt p "skipped"
    Kube.update_status env
    pure tt

  unfoldable pub on_latest : Result (String × String) → M (OrRequeue (String × String))
  on_latest (ok r) = pure (continue r)
  on_latest (err e) =
      if is_al2_unsupported e then (do set_unsupported; by_schedule none) else by_schedule none

  -- resolveLatestOrRequeue
  unfoldable pub resolve_latest_or_requeue :
      AwsClients → Nodegroup → String → M (OrRequeue (String × String))
  resolve_latest_or_requeue c ng eks_version = do
    r ← resolve_latest_ami env c.ssm ng.ami_type eks_version
    on_latest r
