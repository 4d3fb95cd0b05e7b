-- ===== src/Controller/Custom.antt =====
-- A node group with a custom AMI: ResolveLatestAMI of internal/awsutils/aws_helpers.go with
-- Reconcile of internal/controller/nodegroupupgradepolicy_controller.go.
use eks_ami_operator.Base.{◌≡◌, ◌≢◌, refl, ◌∙◌, true, false, String, [], ◌∷◌}
use eks_ami_operator.Go.Text.{to_upper}
use eks_ami_operator.Metrics.{set, number, outdated_node_groups}
use eks_ami_operator.World.{Env, World, Nodegroup}
use eks_ami_operator.Aws.{AwsClients, resolve_latest_ami, build_ssm_path, is_al2}
use eks_ami_operator.Upgrade.{is_tracked, process_upgrade}
use eks_ami_operator.Upgrade.Process.{StartsOne, process_upgrade_starts_iff}
use eks_ami_operator.Controller.Requeue.{continue, resolve_latest_or_requeue, on_latest}
use eks_ami_operator.Controller.Reconcile.{run_upgrade}
use eks_ami_operator.Controller.Initiation.{after_upgrade_none}

module _ (env : Env) where
  custom_resolves :
      (c : AwsClients) (ng : Nodegroup) (version : String) (w : World)
      → to_upper ng.ami_type ≡ "CUSTOM"
      → resolve_latest_or_requeue env c ng version w ≡ (continue ("", ""), w)
  unfolding resolve_latest_or_requeue resolve_latest_ami build_ssm_path is_al2 on_latest
  custom_resolves c ng version w custom = rw custom refl

  -- For a node group with a custom AMI, resolveLatestOrRequeue goes on with the empty release, with
  -- no call. If the policy asks for upgrades, has none in flight and the group has a release, the run
  -- then starts an update to the empty release.
  pub custom_starts_empty :
      (c : AwsClients) (ng : Nodegroup) (version : String) (w : World)
      → to_upper ng.ami_type ≡ "CUSTOM"
      → w.policy.spec.auto_upgrade ≡ true
      → is_tracked w.policy.status ≡ false
      → env.to_string ng.release_version ≢ ""
      → (resolve_latest_or_requeue env c ng version w ≡ (continue ("", ""), w))
        × StartsOne w.policy c.eks "" w (run_upgrade env c ng "" w).1
  unfolding run_upgrade
  custom_starts_empty c ng version w custom auto idle released =
      let v : World = record w {
        metrics = set outdated_node_groups (w.policy.spec.cluster_name ∷ []) (number 0) ∷ w.metrics;
      } in
      let r = env.to_string ng.release_version in
      let (e, u) = process_upgrade env r "" c.eks v in
      let one = (process_upgrade_starts_iff env c.eks r "" v).0 (idle, released, auto) in
      (custom_resolves c ng version w custom, after_upgrade_none env e u ∙ one)
