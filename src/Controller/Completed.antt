-- ===== src/Controller/Completed.antt =====
-- The end of an update that was followed over any number of reconciles of
-- internal/controller/nodegroupupgradepolicy_controller.go.
use eks_ami_operator.Base.{arith, ℕ, ◌≡◌, refl, ◌∙◌, false, String, Option}
use eks_ami_operator.Go.Error.{ok}
use eks_ami_operator.World.{Config, Env, IsRetry, World, Nodegroup}
use eks_ami_operator.Aws.{AwsClients, is_al2, new_aws_clients, describe_cluster}
use eks_ami_operator.Aws.Answered.{
  AnswersSsm, AnswersEks, nodegroup_answered, nodegroup_total, latest_answered,
}
use eks_ami_operator.Controller.Requeue.{
  on_clients, on_nodegroup, on_cluster, on_latest, get_clients_or_requeue,
  describe_nodegroup_or_requeue, describe_cluster_or_requeue, resolve_latest_or_requeue,
}
use eks_ami_operator.Controller.Reconcile.{run_upgrade, aws_work, reconcile}
use eks_ami_operator.Controller.Quiet.{
  new_aws_clients-Quiet, retry_describe_nodegroup-Quiet, resolve_latest_ami-Quiet,
}
use eks_ami_operator.Controller.Polling.{Accepts}
use eks_ami_operator.Controller.Following.{
  Tracks, IsLate, Passing, Follows, >>?-Follows, Watch, reconcile_follows,
}
use eks_ami_operator.Controller.Completing.{SaysDone, IsCompleted, run_upgrade_completes}
use eks_ami_operator.Controller.Watching.{Watched, Watched-Tracks}

-- What AWS answers when the update `id` is done: every call, with node groups that are not AL2, and
-- for the update an end for which upgradeStatus is `s`.
pub record Finishes (env : Env) (id s : String) : Type 0 where
  pub ssm : AnswersSsm env
  pub eks : AnswersEks env
  pub config : (k : ℕ) (region : String) → (c : Config) × (env.load_default_config k region ≡ ok c)
  pub cluster :
      (k : ℕ) (c : Config) (name : String)
      → (v : Option String) × (env.describe_cluster k c name ≡ ok v)
  pub modern :
      (k : ℕ) (c : Config) (cluster name : String) (ng : Nodegroup)
      → env.describe_nodegroup k c cluster name ≡ ok ng
      → is_al2 ng.ami_type ≡ false
  pub done :
      (k : ℕ) (c : Config) (cluster name : String)
      → SaysDone s (env.describe_update k c cluster name id)

IsCompleted-IsLate : (s : String) → IsLate (IsCompleted s)
IsCompleted-IsLate s w v (_, u) q (fine, same, landed, none_started) =
    (fine, same, landed, none_started ∙ q)

abbrev Any : {A : Type 0} → A → Type 0
Any _ = Unit

abbrev IsModern : Nodegroup → Type 0
IsModern ng = is_al2 ng.ami_type ≡ false

module _ (env : Env) (documented : IsRetry env) (id s : String) (answers : Finishes env id s) where
  get_clients-Passing : (w : World) → Passing (IsCompleted s) Any w (get_clients_or_requeue env w)
  unfolding get_clients_or_requeue on_clients new_aws_clients
  get_clients-Passing w =
      let (c, e) = answers.config w.tick w.policy.spec.region in
      rw e (tt, new_aws_clients-Quiet env w.policy.spec.region w)

  nodegroup-Passing :
      (c : AwsClients) (w : World)
      → Passing (IsCompleted s) IsModern w (describe_nodegroup_or_requeue env c w)
  unfolding describe_nodegroup_or_requeue on_nodegroup
  nodegroup-Passing c w =
      let cluster = w.policy.spec.cluster_name in
      let name = w.policy.spec.node_group_name in
      let (ng, e) = nodegroup_total env documented answers.eks c.eks cluster name w in
      let (k, answered) = nodegroup_answered env documented c.eks cluster name w ng e in
      rw e (
        answers.modern k c.eks cluster name ng answered,
        retry_describe_nodegroup-Quiet env documented c.eks cluster name w,
      )

  cluster-Passing :
      (c : AwsClients) (w : World)
      → Passing (IsCompleted s) Any w (describe_cluster_or_requeue env c w)
  unfolding describe_cluster_or_requeue on_cluster describe_cluster
  cluster-Passing c w =
      let (v, e) = answers.cluster w.tick c.eks w.policy.spec.cluster_name in
      rw e (tt, (refl, refl, refl, omega arith))

  latest-Passing :
      (c : AwsClients) (ng : Nodegroup) (version : String)
      → is_al2 ng.ami_type ≡ false
      → (w : World) → Passing (IsCompleted s) Any w (resolve_latest_or_requeue env c ng version w)
  unfolding resolve_latest_or_requeue on_latest
  latest-Passing c ng version modern w =
      let (r, e) = latest_answered env documented answers.ssm c.ssm ng.ami_type version w modern in
      rw e (tt, resolve_latest_ami-Quiet env documented c.ssm ng.ami_type version w)

  run-IsCompleted :
      Accepts env
      → (c : AwsClients) (ng : Nodegroup) (latest : String) (w : World) → Tracks id w
      → IsCompleted s w (run_upgrade env c ng latest w)
  run-IsCompleted server c ng latest w (tracked, same) =
      run_upgrade_completes env server c ng latest s w tracked (rw same (answers.done _ c.eks _ _))

  aws_work-Completes : Accepts env → Follows (IsCompleted s) id (aws_work env)
  unfolding aws_work
  aws_work-Completes server =
      let late = IsCompleted-IsLate s in
      >>?-Follows late id Any _ _ (record { at = λ w _. get_clients-Passing w })
        λ c _.
          >>?-Follows late id IsModern _ _ (record { at = λ w _. nodegroup-Passing c w })
            λ ng modern.
              >>?-Follows late id Any _ _ (record { at = λ w _. cluster-Passing c w })
                λ v _.
                  >>?-Follows late id Any _ _
                    (record { at = λ w _. latest-Passing c ng v modern w })
                    λ latest _. record { at = run-IsCompleted server c ng latest.1 }

-- An update in flight is followed to its end. After however many reconciles that met it running, one
-- in which EKS says that it is successful, or that it failed or was cancelled, ends with no error,
-- leaves the policy Succeeded, or Failed, and with nothing in flight; and no other update was started
-- since. In the last one every call of AWS is answered, and the group is not of an AL2 type;
-- backoff.Retry runs as documented, the API server takes the status, and the policy is as Watch says.
pub Watched-IsCompleted :
    (id : String) (w v : World)
    → Tracks id w
    → Watched id w v
    → (env : Env) → IsRetry env
    → (s : String) → Finishes env id s
    → Accepts env
    → (name : String) → Watch env name v
    → IsCompleted s w (reconcile env name v)
Watched-IsCompleted id w v t before env documented s answers server name x =
    let (here, quiet) = Watched-Tracks t before in
    let (fine, same, landed, none_started) =
      reconcile_follows (IsCompleted-IsLate s) id env
        (aws_work-Completes env documented id s answers server) name v here x in
    (fine, same, landed, none_started ∙ quiet)
