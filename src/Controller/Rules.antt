-- ===== src/Controller/Rules.antt =====
-- What a predicate of the state has to allow for a reconcile of
-- internal/controller/nodegroupupgradepolicy_controller.go to keep it, and that this is enough.
use eks_ami_operator.Base.{Bool, true, false, String, [], ◌∷◌, Option, none, some}
use eks_ami_operator.Go.Time.{Time, Duration, add}
use eks_ami_operator.Go.Error.{Error, Result, ok, err, is_al2_unsupported}
use eks_ami_operator.Metrics.{number, outdated_node_groups}
use eks_ami_operator.World.{Env, IsRetry, World, M, Config, Nodegroup, set_status, set_gauge}
use eks_ami_operator.World.Kube
use eks_ami_operator.World.Keeps.{Keeps, Keeps-pure, Keeps-bind, Keeps-if}
use eks_ami_operator.World.Reads.{Reads, reading, now-Keeps}
use eks_ami_operator.Finalizer.{handle_finalizer}
use eks_ami_operator.Aws.{AwsClients}
use eks_ami_operator.Upgrade.{process_upgrade}
use eks_ami_operator.Controller.Schedule.{
  CtrlResult, requeue, gate, when_to_run_next, handle_schedule_gate,
}
use eks_ami_operator.Controller.Requeue.{
  OrRequeue, continue, return, set_unsupported, on_latest, resolve_latest_or_requeue,
}
use eks_ami_operator.Controller.Reconcile.{
  Answer, proceed, ◌>>?◌, schedule_next, after_upgrade, run_upgrade, aws_work, after_gate,
  after_guards, after_finalizer, after_get, reconcile,
}
use eks_ami_operator.Controller.Reading.{
  jitter_interval-Keeps, delay-Keeps, guards-Keeps, by_schedule-Keeps, get_clients-Keeps,
  nodegroup_or-Keeps, cluster_or-Keeps, latest-Keeps,
}

-- Reads, and writes of the schedule to the status.
pub record Steps (env : Env) (P : World → Type 0) : Type 0 where
  pub reads : Reads P
  pub scheduled :
      (last next : Time)
      → Keeps P
          (set_status (λ s. record s { last_scheduled_time = last; next_scheduled_time = next }))
  pub persisted : Keeps P (Kube.update_status env)

-- All that a reconcile does.
pub record Rules (env : Env) (P : World → Type 0) : Type 0 where
  pub steps : Steps env P
  pub finalized : Keeps P (handle_finalizer env)
  pub unsupported : Keeps P (set_unsupported env)
  pub reset :
      (cluster : String) → Keeps P (set_gauge outdated_node_groups (cluster ∷ []) (number 0))
  pub upgraded :
      (current latest : String) (eks : Config) → Keeps P (process_upgrade env current latest eks)

module _ {P : World → Type 0} (env : Env) (r : Steps env P) where
  persisted-Keeps : Keeps P (Kube.update_status env)
  persisted-Keeps = r.persisted

  scheduled-Keeps :
      (last next : Time)
      → Keeps P
          (set_status (λ s. record s { last_scheduled_time = last; next_scheduled_time = next }))
  scheduled-Keeps last next = r.scheduled last next

  gate-Keeps : (t : Time) (d : Duration) → Keeps P (gate env t d)
  unfolding gate
  gate-Keeps t d = let reads = r.reads in search (reading, scheduled-Keeps, persisted-Keeps) depth 9

  when-Keeps : Keeps P (when_to_run_next env)
  unfolding when_to_run_next
  when-Keeps =
      let reads = r.reads in search (reading, jitter_interval-Keeps env reads, gate-Keeps) depth 9

  schedule_gate-Keeps : Keeps P (handle_schedule_gate env)
  unfolding handle_schedule_gate
  schedule_gate-Keeps = let reads = r.reads in search (reading, when-Keeps) depth 9

  schedule_next-Keeps : Keeps P (schedule_next env)
  unfolding schedule_next
  schedule_next-Keeps = Keeps-bind (delay-Keeps env r.reads) λ d.
      Keeps-bind (now-Keeps env r.reads) λ t. Keeps-bind (now-Keeps env r.reads) λ u.
        Keeps-bind (scheduled-Keeps t (add u d))
          λ _. Keeps-bind r.persisted λ _. Keeps-pure (requeue d, none)

  pub after_upgrade-Keeps : (e : Option Error) → Keeps P (after_upgrade env e)
  unfolding after_upgrade
  after_upgrade-Keeps (some e) =
      let reads = r.reads in search (reading, delay-Keeps env reads) depth 9
  after_upgrade-Keeps none = let reads = r.reads in search (reading, schedule_next-Keeps) depth 9

module _ {P : World → Type 0} (env : Env) (documented : IsRetry env) (r : Rules env P) where
  on_latest-Keeps : (v : Result (String × String)) → Keeps P (on_latest env v)
  unfolding on_latest
  on_latest-Keeps (ok v) = Keeps-pure _
  on_latest-Keeps (err e) =
      let scheduled = by_schedule-Keeps env r.steps.reads none in
      Keeps-if (is_al2_unsupported e) (Keeps-bind r.unsupported λ _. scheduled) scheduled

  latest_or-Keeps :
      (c : AwsClients) (ng : Nodegroup) (v : String)
      → Keeps P (resolve_latest_or_requeue env c ng v)
  unfolding resolve_latest_or_requeue
  latest_or-Keeps c ng v =
      Keeps-bind (latest-Keeps env r.steps.reads documented c.ssm ng.ami_type v) on_latest-Keeps

  run_upgrade-Keeps :
      (c : AwsClients) (ng : Nodegroup) (latest : String) → Keeps P (run_upgrade env c ng latest)
  unfolding run_upgrade
  run_upgrade-Keeps c ng latest =
      search (reading, r.reset, r.upgraded, after_upgrade-Keeps env r.steps) depth 9

  proceed-Keeps :
      {A : Type 0} (f : A → M Answer) (a : OrRequeue A)
      → ((x : A) → Keeps P (f x))
      → Keeps P (proceed f a)
  proceed-Keeps f (continue x) h = h x
  proceed-Keeps f (return res e) h = Keeps-pure _

  >>?-Keeps :
      {A : Type 0} (m : M (OrRequeue A)) (f : A → M Answer)
      → Keeps P m
      → ((x : A) → Keeps P (f x))
      → Keeps P (m >>? f)
  >>?-Keeps m f h k = Keeps-bind h (λ a. proceed-Keeps f a k)

  aws_work-Keeps : Keeps P (aws_work env)
  unfolding aws_work
  aws_work-Keeps =
      let reads = r.steps.reads in
      >>?-Keeps _ _ (get_clients-Keeps env reads) (λ c.
        >>?-Keeps _ _ (nodegroup_or-Keeps env reads documented c) (λ ng.
          >>?-Keeps _ _ (cluster_or-Keeps env reads c) (λ v.
            >>?-Keeps _ _ (latest_or-Keeps c ng v) (λ latest. run_upgrade-Keeps c ng latest.1))))

  after_gate-Keeps : (g : Option CtrlResult) → Keeps P (after_gate env g)
  unfolding after_gate
  after_gate-Keeps (some res) = Keeps-pure _
  after_gate-Keeps none = aws_work-Keeps

  after_guards-Keeps : (g : Option CtrlResult × Option Error) → Keeps P (after_guards env g)
  unfolding after_guards
  after_guards-Keeps (some res, e) = Keeps-pure _
  after_guards-Keeps (none, e) = Keeps-bind (schedule_gate-Keeps env r.steps) after_gate-Keeps

  after_finalizer-Keeps : (f : Bool × Option Error) → Keeps P (after_finalizer env f)
  unfolding after_finalizer
  after_finalizer-Keeps (true, e) = Keeps-pure _
  after_finalizer-Keeps (false, some e) = Keeps-pure _
  after_finalizer-Keeps (false, none) =
      Keeps-bind (guards-Keeps env r.steps.reads) after_guards-Keeps

  pub after_get-Keeps : (e : Option Error) → Keeps P (after_get env e)
  unfolding after_get
  after_get-Keeps (some e) = Keeps-pure _
  after_get-Keeps none = Keeps-bind r.finalized after_finalizer-Keeps

  -- A predicate that allows what a reconcile does holds behind it.
  pub reconcile-Keeps : (name : String) → Keeps P (Kube.get env name) → Keeps P (reconcile env name)
  unfolding reconcile
  reconcile-Keeps name got = Keeps-bind got after_get-Keeps
