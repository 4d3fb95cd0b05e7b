-- ===== src/Examples/Living.antt =====
-- Tests of the lives of policies.
use eks_ami_operator.Base.{◌≡◌, sym, ap, ◌⊎◌, refl, List, [], ◌∷◌, some, inl, inr}
use eks_ami_operator.Go.Text.{trim_space, to_upper}
use eks_ami_operator.Go.Error.{Result, ok, err}
use eks_ami_operator.Api.{Policy}
use eks_ami_operator.World.{World}
use eks_ami_operator.World.Stores.{stores}
use eks_ami_operator.Finalizer.{handle_finalizer}
use eks_ami_operator.Upgrade.{process_upgrade}
use eks_ami_operator.Upgrade.WellFormed.{WellFormed}
use eks_ami_operator.Controller.{
  reconcile, after_get, after_finalizer, handle_guards, on_skip, after_guards, handle_schedule_gate,
  is_in_flight, when_to_run_next, jitter_interval, gate, after_gate, aws_work,
  get_clients_or_requeue, on_clients, describe_nodegroup_or_requeue, on_nodegroup,
  describe_cluster_or_requeue, on_cluster, resolve_latest_or_requeue, on_latest, run_upgrade,
  after_upgrade,
}
use eks_ami_operator.Scheduler.{should_skip, cooldown, next_run, next_run_interval, jitter}
use eks_ami_operator.Aws.{
  new_aws_clients, describe_cluster, retry_describe_nodegroup, new_jitter_backoff,
  resolve_latest_ami, retry_get_parameter, build_ssm_path, is_al2, minor_of,
}
use eks_ami_operator.Upgrade.{
  record_check, track_in_flight_update, handle_not_in_flight, initiate, on_initiation,
  stamp_next_cron_window,
}
use eks_ami_operator.Examples.{node_group, env, start, policy, env-IsRetry}
use mathlib.Core.List.{Memᴰ}
use eks_ami_operator.Controller.History.{Serves, created, reconciled}
use eks_ami_operator.Controller.Lives.{
  Lives-WellFormed, SetsOnly, AllUnsupported, Lives-AllUnsupported,
}
use eks_ami_operator.Api.{Condition}
use eks_ami_operator.World.{Env, IsRetry}
use eks_ami_operator.Base.{All}
use eks_ami_operator.Controller.Untouched.{SameRequest, Echoes, IsOwn, reconcile_untouched}
use eks_ami_operator.Examples.{ended-Runs}
use eks_ami_operator.Controller.{
  set_unsupported, set_condition, compute_next_delay, with_fallback, nudged,
}
use eks_ami_operator.Aws.{eks_minor}
use eks_ami_operator.Go.Scan.{sscanf_minor}
use eks_ami_operator.Go.Text.{trim_prefix}

-- The API server of the example.
ok-same : (p q : Policy) → ◌≡◌ {A = Result Policy} (ok p) (ok q) → q.status ≡ p.status
ok-same p q e = sym (ap (λ r. elim r [ ok x ↦ x.status | err _ ↦ q.status ]) e)

env-Serves : Serves env policy
env-Serves = record {
  get-same = λ k name q e. ok-same policy q e;
  update-same = λ k p q e. ok-same p q e;
  update_status-same = λ k p q e. ok-same p q e;
}

-- SetStatusCondition of the example puts a condition before the others.
put_first :
    (cs : List Condition) (c d : Condition)
    → Memᴰ d (c ∷ cs)
    → ((d.condition_type ≡ c.condition_type) × (d.status ≡ c.status) × (d.reason ≡ c.reason))
      ⊎ Memᴰ d cs
put_first cs c d (Memᴰ.head e) = inl (rw e (refl, refl, refl))
put_first cs c d (Memᴰ.tail h) = inr h

env-SetsOnly : SetsOnly env
env-SetsOnly = record { only = λ cs c d h. put_first cs c d h }

-- An API server with the policy, and a cluster of version 1.33 whose group is of an AL2 type.
abbrev old_group : Env
old_group = record env {
  describe_nodegroup = λ k c cluster ng. ok (record node_group { ami_type = "AL2_x86_64" });
  describe_cluster = λ k c cluster. ok (some "1.33");
}

old_group-IsRetry : IsRetry old_group
old_group-IsRetry = record { runs = λ A b op w. ended-Runs op w (op w) refl }

old_group-Serves : Serves old_group policy
old_group-Serves = record {
  get-same = λ k name q e. ok-same policy q e;
  update-same = λ k p q e. ok-same p q e;
  update_status-same = λ k p q e. ok-same p q e;
}

old_group-SetsOnly : SetsOnly old_group
old_group-SetsOnly = record { only = λ cs c d h. put_first cs c d h }

abbrev newest : List Policy → Policy
newest [] = policy
newest (p ∷ _) = p

abbrev older : List Policy → List Policy
older [] = []
older (_ ∷ ps) = ps

-- The state behind a reconcile, and the policies that it stored.
run : Env → World
unfolding reconcile after_get handle_finalizer after_finalizer handle_guards should_skip cooldown
    on_skip after_guards handle_schedule_gate is_in_flight when_to_run_next next_run
    next_run_interval jitter_interval jitter gate after_gate aws_work get_clients_or_requeue
    new_aws_clients on_clients describe_nodegroup_or_requeue retry_describe_nodegroup
    new_jitter_backoff on_nodegroup describe_cluster_or_requeue describe_cluster on_cluster
    resolve_latest_or_requeue resolve_latest_ami retry_get_parameter build_ssm_path is_al2 minor_of
    on_latest run_upgrade process_upgrade record_check track_in_flight_update handle_not_in_flight
    initiate on_initiation stamp_next_cron_window after_upgrade trim_space to_upper eks_minor
    sscanf_minor trim_prefix compute_next_delay with_fallback nudged set_unsupported set_condition
run e = (reconcile e "p" start).1

stores-run :
    stores (run env).calls ≡ newest (stores (run env).calls) ∷ older (stores (run env).calls)
unfolding run
stores-run = refl

Lives-WellFormed_example : WellFormed (newest (stores (run env).calls)).status
unfolding run
Lives-WellFormed_example = Lives-WellFormed {E = SetsOnly} (newest (stores (run env).calls)) (
    reconciled (created (refl, refl)) env env-IsRetry env-SetsOnly env-Serves "p" start (refl, refl)
      refl stores-run)

stores-run_unsupported :
    stores (run old_group).calls
    ≡ newest (stores (run old_group).calls) ∷ older (stores (run old_group).calls)
unfolding run
stores-run_unsupported = refl

Lives-AllUnsupported_example : AllUnsupported (newest (stores (run old_group).calls)).status
unfolding run
Lives-AllUnsupported_example = Lives-AllUnsupported (newest (stores (run old_group).calls)) (
    reconciled (created (refl, refl)) old_group old_group-IsRetry old_group-SetsOnly
      old_group-Serves "p" start (refl, refl) refl stores-run_unsupported)

-- The API server of the example answers a write with what it was sent.
ok-SameRequest : (p q : Policy) → ◌≡◌ {A = Result Policy} (ok p) (ok q) → SameRequest p q
ok-SameRequest p q e = (
  sym (ap (λ r. elim r [ ok x ↦ x.name | err _ ↦ q.name ]) e),
  sym (ap (λ r. elim r [ ok x ↦ x.spec | err _ ↦ q.spec ]) e),
)

env-Echoes : Echoes env
env-Echoes = record {
  update-same = λ k p q e. ok-SameRequest p q e;
  update_status-same = λ k p q e. ok-SameRequest p q e;
}

reconcile_untouched_example : All (IsOwn policy) (reconcile env "p" start).1.calls
reconcile_untouched_example =
    reconcile_untouched env env-IsRetry env-Echoes "p" start policy refl refl
