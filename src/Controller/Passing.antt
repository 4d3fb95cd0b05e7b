-- ===== src/Controller/Passing.antt =====
-- The AWS work of Reconcile in internal/controller/nodegroupupgradepolicy_controller.go, for a policy
-- with an update in flight: every stage goes on, or ends with a short requeue.
use mathlib.Core.Path.{subst}
use eks_ami_operator.Base.{
  ℕ, suc, ◌≡◌, refl, sym, ◌∙◌, arith, true, false, String, Option, some, none,
}
use eks_ami_operator.Go.Error.{Error, Result, ok, err}
use eks_ami_operator.World.{Config, Env, IsRetry, World, Nodegroup}
use eks_ami_operator.World.Frame.{Quiet}
use eks_ami_operator.Aws.{AwsClients, is_al2, new_aws_clients, describe_nodegroup, describe_cluster}
use eks_ami_operator.Aws.Answered.{AnswersSsm, nodegroup_answered, latest_answered}
use eks_ami_operator.Upgrade.Lit.{still_running}
use eks_ami_operator.Controller.Requeue.{
  soon_or, on_clients, on_nodegroup, on_cluster, on_latest, get_clients_or_requeue,
  describe_nodegroup_or_requeue, describe_cluster_or_requeue, resolve_latest_or_requeue,
}
use eks_ami_operator.Controller.Reconcile.{run_upgrade, aws_work}
use eks_ami_operator.Controller.Quiet.{
  new_aws_clients-Quiet, retry_describe_nodegroup-Quiet, resolve_latest_ami-Quiet,
}
use eks_ami_operator.Controller.Polling.{Accepts, IsPolled, run_upgrade_polls}
use eks_ami_operator.Controller.Following.{
  flying, Tracks, Quiet-Tracks, IsLate, Passing, Follows, >>?-Follows,
}

-- What AWS answers while the update `id` runs: SSM and DescribeCluster answer, the types of the node
-- groups are not AL2, and EKS says of the update that it is running, or does not answer.
pub record Answers (env : Env) (id : String) : Type 0 where
  pub ssm : AnswersSsm env
  pub cluster :
      (k : ℕ) (c : Config) (name : String)
      → (v : Option String) × (env.describe_cluster k c name ≡ ok v)
  pub modern :
      (k : ℕ) (c : Config) (cluster name : String) (ng : Nodegroup)
      → env.describe_nodegroup k c cluster name ≡ ok ng
      → is_al2 ng.ami_type ≡ false
  pub running :
      (k : ℕ) (c : Config) (cluster name : String)
      → still_running (env.describe_update k c cluster name id) ≡ true

pub IsPolled-IsLate : (id : String) → IsLate (IsPolled id)
IsPolled-IsLate id w v (a, u) q (done, flies, same, none_started) =
    (done, flies, same, none_started ∙ q)

abbrev Any : {A : Type 0} → A → Type 0
Any _ = Unit

abbrev IsModern : Nodegroup → Type 0
IsModern ng = is_al2 ng.ami_type ≡ false

module _ (env : Env) (documented : IsRetry env) (id : String) (answers : Answers env id) where
  soon_or-Passing :
      {A : Type 0} (R : A → Type 0) (e : Option Error) (w v : World)
      → Tracks id v
      → Quiet w v
      → Passing (IsPolled id) {A = A} R w (soon_or env e v)
  soon_or-Passing R e w v (tracked, same) q =
      let flies = flying v.policy tracked in rw flies (refl, flies, same, q.1)

  get_clients-Passing :
      (w : World) → Tracks id w → Passing (IsPolled id) Any w (get_clients_or_requeue env w)
  unfolding get_clients_or_requeue on_clients
  get_clients-Passing w t =
      let (r, v) = new_aws_clients env w.policy.spec.region w in
      go r v (new_aws_clients-Quiet env w.policy.spec.region w)
    where
      go :
          (r : Result AwsClients) (v : World)
          → Quiet w v
          → Passing (IsPolled id) Any w (on_clients env r v)
      go (ok c) v q = (tt, q)
      go (err e) v q = soon_or-Passing Any (some e) w v (Quiet-Tracks id w v q t) q

  nodegroup-Passing :
      (c : AwsClients) (w : World)
      → Tracks id w
      → Passing (IsPolled id) IsModern w (describe_nodegroup_or_requeue env c w)
  unfolding describe_nodegroup_or_requeue on_nodegroup
  nodegroup-Passing c w t =
      let cluster = w.policy.spec.cluster_name in
      let name = w.policy.spec.node_group_name in
      let (r, v) = describe_nodegroup env c.eks cluster name w in
      go r v refl (retry_describe_nodegroup-Quiet env documented c.eks cluster name w)
    where
      go :
          (r : Result Nodegroup) (v : World)
          → (describe_nodegroup env c.eks w.policy.spec.cluster_name w.policy.spec.node_group_name
              w).0
            ≡ r
          → Quiet w v
          → Passing (IsPolled id) IsModern w (on_nodegroup env r v)
      go (ok ng) v e q =
          let (k, answered) = nodegroup_answered env documented c.eks _ _ w ng e in
          (answers.modern k c.eks _ _ ng answered, q)
      go (err d) v e q = soon_or-Passing IsModern none w v (Quiet-Tracks id w v q t) q

  cluster-Passing :
      (c : AwsClients) (w : World)
      → Passing (IsPolled id) Any w (describe_cluster_or_requeue env c w)
  unfolding describe_cluster_or_requeue on_cluster describe_cluster
  cluster-Passing c w =
      let (v, e) = answers.cluster w.tick c.eks w.policy.spec.cluster_name in
      rw e (tt, (refl, refl, refl, omega arith))

  latest-Passing :
      (c : AwsClients) (ng : Nodegroup) (version : String) (w : World)
      → is_al2 ng.ami_type ≡ false
      → Passing (IsPolled id) Any w (resolve_latest_or_requeue env c ng version w)
  unfolding resolve_latest_or_requeue on_latest
  latest-Passing c ng version w modern =
      let (r, e) = latest_answered env documented answers.ssm c.ssm ng.ami_type version w modern in
      rw e (tt, resolve_latest_ami-Quiet env documented c.ssm ng.ami_type version w)

  run-IsPolled :
      Accepts env
      → (c : AwsClients) (ng : Nodegroup) (latest : String) (w : World) → Tracks id w
      → IsPolled id w (run_upgrade env c ng latest w)
  run-IsPolled server c ng latest w (tracked, same) =
      let still =
        answers.running (suc (suc w.tick)) c.eks w.policy.spec.cluster_name
          w.policy.spec.node_group_name in
      subst (λ (x : String). IsPolled x w (run_upgrade env c ng latest w)) same
        (run_upgrade_polls env server c ng latest w tracked (
          subst
            (λ (x : String).
              still_running (
                env.describe_update (suc (suc w.tick)) c.eks w.policy.spec.cluster_name
                  w.policy.spec.node_group_name x)
              ≡ true)
            (sym same) still))

  -- The AWS work of a policy with the update in flight.
  pub aws_work-Polls : Accepts env → Follows (IsPolled id) id (aws_work env)
  unfolding aws_work
  aws_work-Polls server =
      >>?-Follows (IsPolled-IsLate id) id Any _ _ (record { at = get_clients-Passing })
        λ c _.
          >>?-Follows (IsPolled-IsLate id) id IsModern _ _ (record { at = nodegroup-Passing c })
            λ ng modern.
              >>?-Follows (IsPolled-IsLate id) id Any _ _
                (record { at = λ w _. cluster-Passing c w })
                λ v _.
                  >>?-Follows (IsPolled-IsLate id) id Any _ _
                    (record { at = λ w _. latest-Passing c ng v w modern })
                    λ latest _. record { at = run-IsPolled server c ng latest.1 }
