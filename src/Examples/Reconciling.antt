-- ===== src/Examples/Reconciling.antt =====
-- Tests of the reconciler.
use eks_ami_operator.Base.{◌≡◌, ◌⊎◌, refl, false, String, [], ◌∷◌, some, str_ne}
use eks_ami_operator.Base.Int.{pos}
use eks_ami_operator.Go.Text.{trim_space, to_upper}
use eks_ami_operator.World.{Config, Call, World}
use eks_ami_operator.World.Kube
use eks_ami_operator.World.Frame.{initiations}
use eks_ami_operator.World.Stores.{Stored}
use eks_ami_operator.Finalizer.{is_deleted, handle_finalizer}
use eks_ami_operator.Upgrade.{process_upgrade}
use eks_ami_operator.Upgrade.Lost.{Refuses, IsError, process_upgrade_forgets}
use eks_ami_operator.Go.Error.{Error, err}
use eks_ami_operator.World.{Env}
use eks_ami_operator.Upgrade.Process.{
  StartsNone, StartsOne, IsUpgradable, process_upgrade_starts_iff,
}
use eks_ami_operator.Upgrade.Lifecycle.{Checked}
use eks_ami_operator.Upgrade.Stored.{seen_by, process_upgrade_stores}
use eks_ami_operator.Controller.{
  reconcile, after_get, after_finalizer, handle_guards, on_skip, after_guards, handle_schedule_gate,
  is_in_flight, when_to_run_next, jitter_interval, gate, after_gate, aws_work,
  get_clients_or_requeue, on_clients, describe_nodegroup_or_requeue, on_nodegroup,
  describe_cluster_or_requeue, on_cluster, resolve_latest_or_requeue, on_latest, run_upgrade,
  after_upgrade,
}
use eks_ami_operator.Scheduler.{should_skip, cooldown, next_run, next_run_interval, jitter}
use eks_ami_operator.Aws.{
  new_aws_clients, describe_cluster, retry_describe_nodegroup, new_jitter_backoff,
  resolve_latest_ami, retry_get_parameter, build_ssm_path, is_al2, minor_of,
}
use eks_ami_operator.Upgrade.{
  record_check, track_in_flight_update, handle_not_in_flight, initiate, on_initiation,
  stamp_next_cron_window,
}
use eks_ami_operator.Controller.Initiation.{MayStart, reconcile_starts}
use eks_ami_operator.World.{Nodegroup}
use eks_ami_operator.Aws.{AwsClients}
use eks_ami_operator.Controller.{continue}
use eks_ami_operator.Controller.Custom.{custom_starts_empty}
use eks_ami_operator.Examples.{node_group, env, start, policy, env-IsRetry}

-- The reconcile of the example starts one update.
starts_update :
    initiations (reconcile env "p" start).1.calls
    ≡ Call.update_nodegroup_version (record { region = "us-east-1" }) "c" "n" "1.31.0-new" ∷ []
unfolding reconcile after_get handle_finalizer after_finalizer handle_guards should_skip cooldown
    on_skip after_guards handle_schedule_gate is_in_flight when_to_run_next next_run
    next_run_interval jitter_interval jitter gate after_gate aws_work get_clients_or_requeue
    new_aws_clients on_clients describe_nodegroup_or_requeue retry_describe_nodegroup
    new_jitter_backoff on_nodegroup describe_cluster_or_requeue describe_cluster on_cluster
    resolve_latest_or_requeue resolve_latest_ami retry_get_parameter build_ssm_path is_al2 minor_of
    on_latest run_upgrade process_upgrade record_check track_in_flight_update handle_not_in_flight
    initiate on_initiation stamp_next_cron_window after_upgrade trim_space to_upper
starts_update = refl

reconcile_starts_example :
    StartsNone start (reconcile env "p" start).1
    ⊎ ((eks : Config) × (release : String) × StartsOne policy eks release start
          (reconcile env "p" start).1
        × MayStart env env-IsRetry (handle_finalizer env (Kube.get env "p" start).1).1
        × (is_deleted policy.deletion_timestamp ≡ false))
unfolding handle_finalizer
reconcile_starts_example = reconcile_starts env env-IsRetry "p" start

abbrev eks : Config
eks = record { region = "us-east-1" }

process_upgrade_starts_iff_example :
    (IsUpgradable env policy "1.31.0-old" "1.31.0-new"
      → StartsOne policy eks "1.31.0-new" start
          (process_upgrade env "1.31.0-old" "1.31.0-new" eks start).1)
    × (¬ IsUpgradable env policy "1.31.0-old" "1.31.0-new"
        → StartsNone start (process_upgrade env "1.31.0-old" "1.31.0-new" eks start).1)
process_upgrade_starts_iff_example =
    process_upgrade_starts_iff env eks "1.31.0-old" "1.31.0-new" start

process_upgrade_stores_example :
    Stored env
      (Checked (seen_by env eks "1.31.0-new" start) policy (env.now 1) "1.31.0-old" "1.31.0-new")
      start
      (process_upgrade env "1.31.0-old" "1.31.0-new" eks start).1
process_upgrade_stores_example = process_upgrade_stores env "1.31.0-old" "1.31.0-new" eks start

-- A policy that is being deleted.
abbrev leaving : World
leaving = record start { policy = record policy { deletion_timestamp = some (pos 5) } }

-- A node group with a custom AMI.
abbrev custom : Nodegroup
custom = record node_group { ami_type = "CUSTOM" }

abbrev clients : AwsClients
clients = record { eks = eks; ssm = eks; ec2 = eks }

custom_starts_empty_example :
    (resolve_latest_or_requeue env clients custom "1.31" start ≡ (continue ("", ""), start))
    × StartsOne policy eks "" start (run_upgrade env clients custom "" start).1
unfolding to_upper
custom_starts_empty_example =
    custom_starts_empty env clients custom "1.31" start refl refl refl (str_ne "1.31.0-old" "" refl)

-- An API server with another version of the policy.
abbrev stale : Env
stale = record env { update_status = λ k p. err (Error.api "Conflict") }

stale-Refuses : Refuses stale
stale-Refuses = record { refuses = λ k p. (Error.api "Conflict", refl) }

abbrev refused : World
refused = (process_upgrade stale "1.31.0-old" "1.31.0-new" eks start).1

process_upgrade_forgets_example :
    let c = Call.update_nodegroup_version eks "c" "n" "1.31.0-new" in
    IsError (process_upgrade stale "1.31.0-old" "1.31.0-new" eks start).0
    × (initiations
          (process_upgrade env "1.31.0-old" "1.31.0-new" eks
            (record refused { policy = policy })).1.calls
        ≡ c ∷ c ∷ [])
process_upgrade_forgets_example =
    process_upgrade_forgets stale env stale-Refuses eks "1.31.0-old" "1.31.0-new" start
      (record refused { policy = policy }) (refl, str_ne "1.31.0-old" "1.31.0-new" refl, refl) refl
      refl
