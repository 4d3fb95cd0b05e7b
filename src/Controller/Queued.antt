-- ===== src/Controller/Queued.antt =====
-- The requeue of Reconcile in internal/controller/nodegroupupgradepolicy_controller.go, from the
-- guards on.
use eks_ami_operator.Base.{
  ℕ, suc, ◌≤◌, ◌≡◌, false, String, [], ◌∷◌, Option, none, some, Bool-cases, inl, inr, arith,
}
use eks_ami_operator.Base.Int.{int_laws}
use eks_ami_operator.Go.Error.{Error, Result, ok, err, is_al2_unsupported}
use eks_ami_operator.Api.{Policy}
use eks_ami_operator.Metrics.{set, number, outdated_node_groups}
use eks_ami_operator.World.{Env, IsRandom, IsMonotone, IsRetry, World, M, Nodegroup}
use eks_ami_operator.World.Kube
use eks_ami_operator.World.Stores.{decoded}
use eks_ami_operator.Scheduler.{Skip, should_skip}
use eks_ami_operator.Aws.{AwsClients, describe_nodegroup, resolve_latest_ami}
use eks_ami_operator.Upgrade.{process_upgrade}
use eks_ami_operator.Upgrade.Stored.{process_upgrade_stores}
use eks_ami_operator.Controller.Conditions.{set_condition}
use eks_ami_operator.Controller.Schedule.{
  CtrlResult, is_in_flight, handle_schedule_gate, on_skip, handle_guards,
}
use eks_ami_operator.Controller.Requeue.{
  OrRequeue, continue, return, set_unsupported, on_latest, describe_nodegroup_or_requeue,
  resolve_latest_or_requeue,
}
use eks_ami_operator.Controller.Quiet.{
  retry_describe_nodegroup-Quiet, resolve_latest_ami-Quiet, should_skip-Quiet,
}
use eks_ami_operator.Controller.Reconcile.{
  Answer, proceed, schedule_next, after_upgrade, run_upgrade, aws_work, after_gate, after_guards,
  after_finalizer,
}
use eks_ami_operator.Controller.Stages.{
  Stage, Gate, schedule-Gate-Gate, get_clients-Stage, describe_nodegroup-Stage,
  describe_cluster-Stage, resolve_latest-Stage,
}
use eks_ami_operator.Controller.Ready.{
  IsStore, IsReadyAt, IsReady, now-le, Quiet-IsReady, Queues, Ends, Waits, decoded-same,
  delay-Queues, on_nodegroup-Ends, get_clients-Ends, describe_cluster-Ends, schedule_gate-Waits,
}

module _ (env : Env) (random : IsRandom env) (monotone : IsMonotone env) (store : IsStore env) where
  -- The state behind a status update of the policy in hand.
  written-IsReady :
      (w u : World) (p : Policy) (k : ℕ)
      → IsReadyAt env.calendar p (env.now w.tick)
      → w.tick ≤ u.tick
      → u.policy ≡ decoded p (env.update_status k p)
      → IsReady env u
  written-IsReady w u p k (positive, short, past) later answer =
      let (same_spec, same_check) = decoded-same env p k store in
      let le = now-le env monotone w.tick u.tick later in
      rw (answer, same_spec, same_check) (positive, short, omega (int_laws, past, le))

  persisted-IsReady : (w : World) → IsReady env w → IsReady env (Kube.update_status env w).1
  persisted-IsReady w ready =
      written-IsReady w (Kube.update_status env w).1 w.policy w.tick ready (ground arith)
        (ground arith)

  set_unsupported-IsReady : (w : World) → IsReady env w → IsReady env (set_unsupported env w).1
  unfolding set_unsupported set_condition
  set_unsupported-IsReady w (positive, short, past) =
      let le = now-le env monotone w.tick (suc (suc w.tick)) (omega arith) in
      persisted-IsReady _ (positive, short, omega (int_laws, past, le))

  on_latest-Ends :
      (r : Result (String × String)) (w : World) → IsReady env w → Ends (on_latest env r w).0
  unfolding on_latest
  on_latest-Ends (ok r) w ready = tt
  on_latest-Ends (err e) w ready = elim (Bool-cases (is_al2_unsupported e)) [
    | inl unsupported ↦ rw unsupported (
        delay-Queues env random monotone (set_unsupported env w).1
          (set_unsupported-IsReady w ready))
    | inr other ↦ rw other (delay-Queues env random monotone w ready)
  ]

  after_upgrade-Queues :
      (e : Option Error) (w : World) → IsReady env w → Queues (after_upgrade env e w).0.0
  unfolding after_upgrade schedule_next
  after_upgrade-Queues (some e) w ready = delay-Queues env random monotone w ready
  after_upgrade-Queues none w ready = elim (Bool-cases (is_in_flight w.policy)) [
    | inl flying ↦ rw flying (omega arith)
    | inr landed ↦ rw landed (delay-Queues env random monotone w ready)
  ]

  run_upgrade-Queues :
      (c : AwsClients) (ng : Nodegroup) (latest : String) (w : World)
      → IsReady env w
      → Queues (run_upgrade env c ng latest w).0.0
  unfolding run_upgrade
  run_upgrade-Queues c ng latest w ready =
      let v : World = record w {
        metrics = set outdated_node_groups (w.policy.spec.cluster_name ∷ []) (number 0) ∷ w.metrics;
      } in
      let r = env.to_string ng.release_version in
      let (e, u) = process_upgrade env r latest c.eks v in
      let (p, k, _, le, last, answer, new) = process_upgrade_stores env r latest c.eks v in
      after_upgrade-Queues e u (
        written-IsReady (record v { tick = suc v.tick }) u p k
          (rw (new.same_spec, new.last_checked-eq) (ready.0, ready.1, omega arith))
          (omega (arith, le, last)) answer)

  proceed-Queues :
      {A : Type 0} (f : A → M Answer) (w : World) (r : OrRequeue A) (v : World)
      → IsReady env w
      → Stage w (r, v)
      → Ends r
      → ((a : A) (u : World) → IsReady env u → Queues (f a u).0.0)
      → Queues (proceed f r v).0.0
  proceed-Queues f w (continue a) v ready quiet ends k =
      k a v (Quiet-IsReady env monotone w v quiet ready)
  proceed-Queues f w (return res e) v ready none' ends k = ends

module _ (env : Env) (random : IsRandom env) (monotone : IsMonotone env) (store : IsStore env)
    (documented : IsRetry env) where
  describe_nodegroup-Ends :
      (c : AwsClients) (w : World) → IsReady env w → Ends (describe_nodegroup_or_requeue env c w).0
  unfolding describe_nodegroup_or_requeue
  describe_nodegroup-Ends c w ready =
      let cluster = w.policy.spec.cluster_name in
      let ng = w.policy.spec.node_group_name in
      let (r, v) = describe_nodegroup env c.eks cluster ng w in
      let q = retry_describe_nodegroup-Quiet env documented c.eks cluster ng w in
      on_nodegroup-Ends env random monotone r v (Quiet-IsReady env monotone w v q ready)

  resolve_latest-Ends :
      (c : AwsClients) (ng : Nodegroup) (version : String) (w : World)
      → IsReady env w
      → Ends (resolve_latest_or_requeue env c ng version w).0
  unfolding resolve_latest_or_requeue
  resolve_latest-Ends c ng version w ready =
      let (r, v) = resolve_latest_ami env c.ssm ng.ami_type version w in
      let q = resolve_latest_ami-Quiet env documented c.ssm ng.ami_type version w in
      on_latest-Ends env random monotone store r v (Quiet-IsReady env monotone w v q ready)

  aws_work-Queues : (w : World) → IsReady env w → Queues (aws_work env w).0.0
  unfolding aws_work
  aws_work-Queues w ready =
      proceed-Queues env random monotone store _ w _ _ ready (get_clients-Stage env w)
        (get_clients-Ends env random monotone w ready)
        λ c w₁ r₁.
          proceed-Queues env random monotone store _ w₁ _ _ r₁
            (describe_nodegroup-Stage env documented c w₁) (describe_nodegroup-Ends c w₁ r₁)
            λ ng w₂ r₂.
              proceed-Queues env random monotone store _ w₂ _ _ r₂ (describe_cluster-Stage env c w₂)
                (describe_cluster-Ends env random monotone c w₂ r₂)
                λ v w₃ r₃.
                  proceed-Queues env random monotone store _ w₃ _ _ r₃
                    (resolve_latest-Stage env documented c ng v w₃)
                    (resolve_latest-Ends c ng v w₃ r₃)
                    λ latest w₄ r₄. run_upgrade-Queues env random monotone store c ng latest.1 w₄ r₄

  after_gate-Queues :
      (w u : World) (g : Option CtrlResult)
      → IsReady env w
      → Gate w (g, u)
      → Waits g
      → Queues (after_gate env g u).0.0
  unfolding after_gate
  after_gate-Queues w u none ready quiet waits =
      aws_work-Queues u (Quiet-IsReady env monotone w u quiet ready)
  after_gate-Queues w u (some res) ready same waits = waits

  after_guards-Queues : (w : World) → IsReady env w → Queues (after_guards env (none, none) w).0.0
  unfolding after_guards
  after_guards-Queues w ready =
      let (g, u) = handle_schedule_gate env w in
      after_gate-Queues w u g ready (schedule-Gate-Gate env w)
        (schedule_gate-Waits env random monotone w)

  behind_guards-Queues :
      (s : Skip) (e : Option Error) (u : World)
      → IsReady env u
      → s.skip ≡ false
      → let (g, v) = on_skip env s e u in Queues (after_guards env g v).0.0
  unfolding on_skip after_guards
  behind_guards-Queues s (some e) u ready go = delay-Queues env random monotone u ready
  behind_guards-Queues s none u ready go = rw go (after_guards-Queues u ready)

  -- With generators that draw below their bound, a clock that does not run backwards, a backoff.Retry
  -- that runs as documented and an API server that keeps what it is sent, a reconcile behind the
  -- finalizer that ShouldSkip does not hold back queues the policy again with a positive delay, on
  -- every path, errors included, if the interval is positive and at most 2^62 nanoseconds and the
  -- last check is not in the future.
  pub reconcile-Queues :
      (w : World)
      → IsReady env w
      → (should_skip env w.policy w).0.skip ≡ false
      → Queues (after_finalizer env (false, none) w).0.0
  unfolding after_finalizer handle_guards
  reconcile-Queues w ready go =
      let (s, u) = should_skip env w.policy w in
      behind_guards-Queues s s.error u
        (Quiet-IsReady env monotone w u (should_skip-Quiet env w) ready) go
