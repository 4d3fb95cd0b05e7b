-- ===== src/Controller/Reading.antt =====
-- The steps of Reconcile in internal/controller/nodegroupupgradepolicy_controller.go that only read
-- keep every predicate that allows reads.
use eks_ami_operator.Base.{Bool, String, Option, none, some}
use eks_ami_operator.Go.Time.{Time, Duration}
use eks_ami_operator.Go.Error.{Error, Result, ok, err}
use eks_ami_operator.Api.{Policy}
use eks_ami_operator.World.{Env, IsRetry, World, Config, Nodegroup}
use eks_ami_operator.World.Keeps.{Keeps, Keeps-pure, retry-Keeps}
use eks_ami_operator.World.Reads.{Reads, reading}
use eks_ami_operator.Scheduler.{Skip, Next, jitter, cooldown, start_after, should_skip}
use eks_ami_operator.Aws.{
  AwsClients, new_aws_clients, describe_cluster, new_jitter_backoff, retry_describe_nodegroup,
  retry_get_parameter, look_up, resolve_latest_ami,
}
use eks_ami_operator.Controller.Schedule.{
  jitter_interval, compute_next_delay, on_skip, handle_guards,
}
use eks_ami_operator.Controller.Requeue.{
  by_schedule, soon_or, on_clients, get_clients_or_requeue, on_nodegroup, on_cluster,
  describe_cluster_or_requeue, describe_nodegroup_or_requeue,
}

module _ {P : World → Type 0} (env : Env) (r : Reads P) where
  pub jitter-Keeps : (d : Duration) → Keeps P (jitter env d)
  unfolding jitter
  jitter-Keeps d = search reading depth 9

  pub jitter_interval-Keeps : (n : Next) → Keeps P (jitter_interval env n)
  unfolding jitter_interval
  jitter_interval-Keeps n = search (reading, jitter-Keeps) depth 9

  pub delay-Keeps : Keeps P (compute_next_delay env)
  unfolding compute_next_delay
  delay-Keeps = search (reading, jitter_interval-Keeps) depth 9

  cooldown-Keeps : (p : Policy) → Keeps P (cooldown env p)
  unfolding cooldown
  cooldown-Keeps p = search reading depth 9

  start_after-Keeps : (p : Policy) (t : Result Time) → Keeps P (start_after env p t)
  unfolding start_after
  start_after-Keeps p (err e) = search reading depth 9
  start_after-Keeps p (ok t) = search (reading, cooldown-Keeps) depth 9

  pub skip-Keeps : (p : Policy) → Keeps P (should_skip env p)
  unfolding should_skip
  skip-Keeps p = search (reading, cooldown-Keeps, start_after-Keeps) depth 9

  on_skip-Keeps : (s : Skip) (e : Option Error) → Keeps P (on_skip env s e)
  unfolding on_skip
  on_skip-Keeps s (some e) = search (reading, delay-Keeps) depth 9
  on_skip-Keeps s none = search (reading, jitter-Keeps) depth 9

  pub guards-Keeps : Keeps P (handle_guards env)
  unfolding handle_guards
  guards-Keeps = search (reading, skip-Keeps, on_skip-Keeps) depth 9

  pub clients-Keeps : (region : String) → Keeps P (new_aws_clients env region)
  unfolding new_aws_clients
  clients-Keeps region = search reading depth 9

  pub describe_cluster-Keeps :
      (c : Config) (cluster : String) → Keeps P (describe_cluster env c cluster)
  unfolding describe_cluster
  describe_cluster-Keeps c cluster = search reading depth 9

  pub by_schedule-Keeps : {A : Type 0} (e : Option Error) → Keeps P (by_schedule env {A = A} e)
  by_schedule-Keeps e = search (reading, delay-Keeps) depth 9

  soon_or-Keeps : {A : Type 0} (e : Option Error) → Keeps P (soon_or env {A = A} e)
  soon_or-Keeps {A} e = search (reading, by_schedule-Keeps {A = A}) depth 9

  on_clients-Keeps : (c : Result AwsClients) → Keeps P (on_clients env c)
  unfolding on_clients
  on_clients-Keeps (ok c) = Keeps-pure _
  on_clients-Keeps (err e) = soon_or-Keeps (some e)

  pub get_clients-Keeps : Keeps P (get_clients_or_requeue env)
  unfolding get_clients_or_requeue
  get_clients-Keeps = search (reading, clients-Keeps, on_clients-Keeps) depth 9

  on_nodegroup-Keeps : (ng : Result Nodegroup) → Keeps P (on_nodegroup env ng)
  unfolding on_nodegroup
  on_nodegroup-Keeps (ok ng) = Keeps-pure _
  on_nodegroup-Keeps (err e) = soon_or-Keeps none

  on_cluster-Keeps : (v : Result String) → Keeps P (on_cluster env v)
  unfolding on_cluster
  on_cluster-Keeps (ok v) = Keeps-pure _
  on_cluster-Keeps (err e) = by_schedule-Keeps (some e)

  pub cluster_or-Keeps : (c : AwsClients) → Keeps P (describe_cluster_or_requeue env c)
  unfolding describe_cluster_or_requeue
  cluster_or-Keeps c = search (reading, describe_cluster-Keeps, on_cluster-Keeps) depth 9

  backoff-Keeps : (a b : Duration) → Keeps P (new_jitter_backoff env a b)
  unfolding new_jitter_backoff
  backoff-Keeps a b = search reading depth 9

  module _ (documented : IsRetry env) where
    pub retry_nodegroup-Keeps :
        (c : Config) (cluster ng : String) → Keeps P (retry_describe_nodegroup env c cluster ng)
    unfolding retry_describe_nodegroup
    retry_nodegroup-Keeps c cluster ng =
        search (reading, backoff-Keeps, retry-Keeps env documented) depth 9

    retry_parameter-Keeps : (c : Config) (path : String) → Keeps P (retry_get_parameter env c path)
    unfolding retry_get_parameter
    retry_parameter-Keeps c path =
        search (reading, backoff-Keeps, retry-Keeps env documented) depth 9

    look_up-Keeps :
        (c : Config) (ami_type version : String) (path : String × Bool)
        → Keeps P (look_up env c ami_type version path)
    look_up-Keeps c ami_type version (path, is_custom) =
        search (reading, retry_parameter-Keeps) depth 9

    pub latest-Keeps :
        (c : Config) (ami_type version : String)
        → Keeps P (resolve_latest_ami env c ami_type version)
    unfolding resolve_latest_ami
    latest-Keeps c ami_type version = search (reading, look_up-Keeps) depth 9

    pub nodegroup_or-Keeps : (c : AwsClients) → Keeps P (describe_nodegroup_or_requeue env c)
    unfolding describe_nodegroup_or_requeue
    nodegroup_or-Keeps c = search (reading, retry_nodegroup-Keeps, on_nodegroup-Keeps) depth 9
