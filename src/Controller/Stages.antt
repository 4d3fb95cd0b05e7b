-- ===== src/Controller/Stages.antt =====
-- The stages of Reconcile in internal/controller/nodegroupupgradepolicy_controller.go before the
-- upgrade.
use eks_ami_operator.Base.{
  suc, ◌≡◌, inl, inr, refl, String, ◌∷◌, Option, none, some, arith, ◌∙◌, Bool-cases,
}
use eks_ami_operator.Go.Error.{Error, Result, ok, err, is_al2_unsupported}
use eks_ami_operator.Upgrade.{labels}
use eks_ami_operator.Metrics.{seconds, next_run_seconds, set}
use eks_ami_operator.World.{Env, IsRetry, World, Nodegroup}
use eks_ami_operator.World.Frame.{Quiet-suc, Quiet, Quiet-trans}
use eks_ami_operator.Aws.{
  AwsClients, new_aws_clients, describe_cluster, describe_nodegroup, resolve_latest_ami,
}
use eks_ami_operator.Upgrade.Process.{StartsNone}
use eks_ami_operator.Base.Int.{ℤ, pos, leb_ℤ}
use eks_ami_operator.Scheduler.{Skip, should_skip, next_run}
use eks_ami_operator.Scheduler.Guards.{Passes}
use eks_ami_operator.Controller.Schedule.{
  CtrlResult, gate, gate_result, when_to_run_next, jitter_interval, on_skip, is_in_flight,
  handle_guards, handle_schedule_gate,
}
use eks_ami_operator.Controller.Requeue.{
  OrRequeue, set_unsupported, by_schedule, soon_or, continue, return, on_clients, on_nodegroup,
  on_cluster, on_latest, get_clients_or_requeue, describe_nodegroup_or_requeue,
  describe_cluster_or_requeue, resolve_latest_or_requeue,
}
use eks_ami_operator.Controller.Conditions.{set_condition}
use eks_ami_operator.Controller.Quiet.{
  compute_next_delay-Quiet, new_aws_clients-Quiet, describe_cluster-Quiet,
  retry_describe_nodegroup-Quiet, resolve_latest_ami-Quiet, should_skip-Quiet, jitter-Quiet,
  jitter_interval-Quiet,
}

-- A stage that may end the reconcile: it starts nothing, and leaves the policy alone if it goes on.
abbrev pub Stage : {A : Type 0} → World → OrRequeue A × World → Type 0
Stage w (continue _, v) = Quiet w v
Stage w (return _ _, v) = StartsNone w v

pub Stage-Quiet :
    {A : Type 0} (u v : World) (r : OrRequeue A) (w : World)
    → Quiet u v
    → Stage v (r, w)
    → Stage u (r, w)
Stage-Quiet u v (continue _) w h k = Quiet-trans u v w h k
Stage-Quiet u v (return _ _) w h k = k ∙ h.1

module _ (env : Env) where
  by_schedule-Stage :
      (A : Type 0) (e : Option Error) (w : World) → Stage {A = A} w (by_schedule env e w)
  by_schedule-Stage A e w = (compute_next_delay-Quiet env w).1

  soon_or-Stage : (A : Type 0) (e : Option Error) (w : World) → Stage {A = A} w (soon_or env e w)
  soon_or-Stage A e w = elim (Bool-cases (is_in_flight w.policy)) [
    | inl flying ↦ rw flying refl
    | inr landed ↦ rw landed (by_schedule-Stage A e w)
  ]

  on_clients-Stage : (r : Result AwsClients) (w : World) → Stage w (on_clients env r w)
  unfolding on_clients
  on_clients-Stage (ok c) w = (refl, refl, refl, omega arith)
  on_clients-Stage (err e) w = soon_or-Stage AwsClients (some e) w

  pub get_clients-Stage : (w : World) → Stage w (get_clients_or_requeue env w)
  unfolding get_clients_or_requeue
  get_clients-Stage w =
      let (r, v) = new_aws_clients env w.policy.spec.region w in
      Stage-Quiet w v _ _ (new_aws_clients-Quiet env w.policy.spec.region w) (on_clients-Stage r v)

  on_nodegroup-Stage : (r : Result Nodegroup) (w : World) → Stage w (on_nodegroup env r w)
  unfolding on_nodegroup
  on_nodegroup-Stage (ok ng) w = (refl, refl, refl, omega arith)
  on_nodegroup-Stage (err _) w = soon_or-Stage Nodegroup none w

  on_cluster-Stage : (r : Result String) (w : World) → Stage w (on_cluster env r w)
  unfolding on_cluster
  on_cluster-Stage (ok v) w = (refl, refl, refl, omega arith)
  on_cluster-Stage (err e) w = by_schedule-Stage String (some e) w

  pub describe_cluster-Stage :
      (c : AwsClients) (w : World) → Stage w (describe_cluster_or_requeue env c w)
  unfolding describe_cluster_or_requeue
  describe_cluster-Stage c w =
      let (r, v) = describe_cluster env c.eks w.policy.spec.cluster_name w in
      Stage-Quiet w v _ _ (describe_cluster-Quiet env c.eks w.policy.spec.cluster_name w)
        (on_cluster-Stage r v)

  set_unsupported_none : (w : World) → StartsNone w (set_unsupported env w).1
  unfolding set_unsupported set_condition
  set_unsupported_none w = ground arith

  on_latest-Stage : (r : Result (String × String)) (w : World) → Stage w (on_latest env r w)
  unfolding on_latest
  on_latest-Stage (ok r) w = (refl, refl, refl, omega arith)
  on_latest-Stage (err e) w = elim (Bool-cases (is_al2_unsupported e)) [
    | inl unsupported ↦
        rw unsupported
          ((compute_next_delay-Quiet env (set_unsupported env w).1).1 ∙ set_unsupported_none w)
    | inr other ↦ rw other (by_schedule-Stage (String × String) none w)
  ]

module _ (env : Env) (documented : IsRetry env) where
  pub describe_nodegroup-Stage :
      (c : AwsClients) (w : World) → Stage w (describe_nodegroup_or_requeue env c w)
  unfolding describe_nodegroup_or_requeue
  describe_nodegroup-Stage c w =
      let cluster = w.policy.spec.cluster_name in
      let ng = w.policy.spec.node_group_name in
      let (r, v) = describe_nodegroup env c.eks cluster ng w in
      Stage-Quiet w v _ _ (retry_describe_nodegroup-Quiet env documented c.eks cluster ng w)
        (on_nodegroup-Stage env r v)

  pub resolve_latest-Stage :
      (c : AwsClients) (ng : Nodegroup) (v : String) (w : World)
      → Stage w (resolve_latest_or_requeue env c ng v w)
  unfolding resolve_latest_or_requeue
  resolve_latest-Stage c ng version w =
      let (r, v) = resolve_latest_ami env c.ssm ng.ami_type version w in
      Stage-Quiet w v _ _ (resolve_latest_ami-Quiet env documented c.ssm ng.ami_type version w)
        (on_latest-Stage env r v)

-- The schedule gate: it leaves the policy alone if it lets it through, and starts nothing.
abbrev pub Gate : World → Option CtrlResult × World → Type 0
Gate w (none, v) = Quiet w v
Gate w (some _, v) = StartsNone w v

Gate-Quiet :
    (u v : World) (g : Option CtrlResult) (w : World) → Quiet u v → Gate v (g, w) → Gate u (g, w)
Gate-Quiet u v none w h k = Quiet-trans u v w h k
Gate-Quiet u v (some _) w h k = k ∙ h.1

-- The guards: they let a policy through only if ShouldSkip does.
abbrev pub Guarded : Env → World → (Option CtrlResult × Option Error) × World → Type 0
Guarded env w ((none, _), v) = Quiet w v × Passes (should_skip env w.policy w).0
Guarded env w ((some _, _), v) = StartsNone w v

module _ (env : Env) where
  gate-Gate : (t d : ℤ) (w : World) → let (r, v) = gate env t d w in Gate w (gate_result env r, v)
  unfolding gate
  gate-Gate t d w = elim (Bool-cases (leb_ℤ d (pos 0))) [
    | inl due ↦ rw due (refl, refl, refl, omega arith)
    | inr later ↦ rw later (ground arith)
  ]

  when_to_run_next-Gate :
      (w : World) → let (r, v) = when_to_run_next env w in Gate w (gate_result env r, v)
  unfolding when_to_run_next
  when_to_run_next-Gate w =
      let t = env.now w.tick in
      let n = next_run env.calendar t w.policy.status.last_checked w.policy in
      let (d, u) = jitter_interval env n (record w { tick = suc (w.tick) }) in
      let v : World = record u {
        metrics = set next_run_seconds (labels w.policy) (seconds d) ∷ u.metrics;
      } in
      let (r, z) = gate env t d v in
      let q = jitter_interval-Quiet env n (record w { tick = suc (w.tick) }) in
      Gate-Quiet w v (gate_result env r) z (Quiet-suc w v q) (gate-Gate t d v)

  pub schedule-Gate-Gate : (w : World) → Gate w (handle_schedule_gate env w)
  unfolding handle_schedule_gate
  schedule-Gate-Gate w = elim (Bool-cases (is_in_flight w.policy)) [
    | inl flying ↦ rw flying (refl, refl, refl, omega arith)
    | inr landed ↦ rw landed (when_to_run_next-Gate w)
  ]

  on_skip-Guarded :
      (w u : World) (s : Skip) (e : Option Error)
      → Quiet w u
      → (Passes s → Passes (should_skip env w.policy w).0)
      → s.error ≡ e
      → Guarded env w (on_skip env s e u)
  unfolding on_skip
  on_skip-Guarded w u s (some e) quiet same _ = (compute_next_delay-Quiet env u).1 ∙ quiet.1
  on_skip-Guarded w u s none quiet same no_error = elim (Bool-cases s.skip) [
    | inl skip ↦ rw skip ((jitter-Quiet env s.requeue_after u).1 ∙ quiet.1)
    | inr go ↦ rw go (quiet, same (go, no_error))
  ]

  pub handle_guards-Guarded : (w : World) → Guarded env w (handle_guards env w)
  unfolding handle_guards
  handle_guards-Guarded w =
      let (s, u) = should_skip env w.policy w in
      on_skip-Guarded w u s s.error (should_skip-Quiet env w) (λ h. h) refl
