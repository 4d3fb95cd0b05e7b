-- ===== src/Controller/Counted.antt =====
-- The count of outdated node groups behind a run of
-- internal/controller/nodegroupupgradepolicy_controller.go.
use eks_ami_operator.Base.{◌≡◌, ◌∙◌, inl, inr, ◌∷◌, String, List}
use eks_ami_operator.Metrics.{Write, set, number, outdated_node_groups}
use eks_ami_operator.Metrics.Documented.{same}
use eks_ami_operator.Metrics.Reading.{reading, Grows-outdated}
use eks_ami_operator.World.{Env, World, Nodegroup}
use eks_ami_operator.Aws.{AwsClients}
use eks_ami_operator.Upgrade.{process_upgrade}
use eks_ami_operator.Upgrade.Counted.{AtMostOne, cluster_of, set-IsZero, process_upgrade-AtMostOne}
use eks_ami_operator.Controller.Reconcile.{run_upgrade}
use eks_ami_operator.Controller.Rules.{after_upgrade-Keeps}
use eks_ami_operator.Controller.Freed.{Free-Steps}
use eks_ami_operator.World.Metered.{Metered-Free}

AtMostOne-same :
    (ls : List String) (ws vs : List Write)
    → reading outdated_node_groups ls vs ≡ reading outdated_node_groups ls ws
    → AtMostOne ls ws
    → AtMostOne ls vs
AtMostOne-same ls ws vs e (inl zero) = inl (e ∙ zero)
AtMostOne-same ls ws vs e (inr one) = inr (e ∙ one)

-- Behind a run that reaches the upgrade, the count of outdated node groups of the policy's cluster
-- reads 0 or 1, whatever it read before: the node groups of other policies are forgotten.
pub run_upgrade-AtMostOne :
    (env : Env) (c : AwsClients) (ng : Nodegroup) (latest : String) (w : World)
    → AtMostOne (cluster_of w.policy) (run_upgrade env c ng latest w).1.metrics
unfolding run_upgrade
run_upgrade-AtMostOne env c ng latest w =
    let ls = cluster_of w.policy in
    let v : World = record w { metrics = set outdated_node_groups ls (number 0) ∷ w.metrics } in
    let current = env.to_string ng.release_version in
    let (e, u) = process_upgrade env current latest c.eks v in
    let most = process_upgrade-AtMostOne env current latest c.eks v (set-IsZero ls w.metrics) in
    AtMostOne-same ls u.metrics _
      (Grows-outdated ls
        ((after_upgrade-Keeps env (Free-Steps env (Metered-Free env)) e).at u same))
      most
