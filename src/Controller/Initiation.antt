-- ===== src/Controller/Initiation.antt =====
-- When a reconcile starts an update: Reconcile of
-- internal/controller/nodegroupupgradepolicy_controller.go, from the finalizer on.
use eks_ami_operator.Base.{
  ◌≡◌, ◌⊎◌, inl, inr, refl, Bool, true, false, String, List, [], ◌∷◌, Option, none, some, arith,
  ◌∙◌,
}
use eks_ami_operator.Go.Error.{Error}
use eks_ami_operator.Api.{Policy}
use mathlib.Core.Path.{subst₂}
use eks_ami_operator.Metrics.{set, number, outdated_node_groups}
use eks_ami_operator.World.{Config, Call, Env, IsRetry, World, M, Nodegroup}
use eks_ami_operator.World.Frame.{initiations, Quiet}
use eks_ami_operator.Scheduler.{should_skip}
use eks_ami_operator.Scheduler.Guards.{
  Passes, IsStarted, IsCooled, cooldown_clock, conditions_of_Passes,
}
use eks_ami_operator.Aws.{AwsClients}
use eks_ami_operator.Upgrade.{is_tracked}
use eks_ami_operator.Upgrade.{process_upgrade}
use eks_ami_operator.Upgrade.Process.{StartsNone, StartsOne, process_upgrade_cases}
use eks_ami_operator.World.Kube
use eks_ami_operator.Finalizer.{is_deleted, handle_finalizer}
use eks_ami_operator.Finalizer.Cleanup.{not_deleted_of_going_on}
use eks_ami_operator.Controller.Schedule.{CtrlResult, handle_guards, handle_schedule_gate}
use eks_ami_operator.Controller.Requeue.{OrRequeue, continue, return}
use eks_ami_operator.Controller.Reconcile.{
  Answer, reconcile, after_get, after_finalizer, proceed, schedule_next, after_upgrade, run_upgrade,
  aws_work, after_gate, after_guards,
}
use eks_ami_operator.Controller.Stages.{
  Stage, Gate, schedule-Gate-Gate, Guarded, handle_guards-Guarded, get_clients-Stage,
  describe_nodegroup-Stage, describe_cluster-Stage, resolve_latest-Stage,
}
use eks_ami_operator.Controller.Quiet.{compute_next_delay-Quiet}

-- Since a state with the policy `p` and the updates `started`, at most one more was started, and
-- only for a policy that asks for it and has none in flight.
abbrev pub AtMostOne : Policy → List Call → World → Type 0
AtMostOne p started w =
    (initiations w.calls ≡ started)
    ⊎ ((eks : Config) × (release : String) × (initiations w.calls
          ≡ Call.update_nodegroup_version eks p.spec.cluster_name p.spec.node_group_name release
            ∷ started)
        × (p.spec.auto_upgrade ≡ true)
        × (is_tracked p.status ≡ false))

abbrev pub StartsAtMostOne : World → World → Type 0
StartsAtMostOne w w' = AtMostOne w.policy (initiations w.calls) w'

StartsAtMostOne-Quiet : (u v w : World) → Quiet u v → StartsAtMostOne v w → StartsAtMostOne u w
StartsAtMostOne-Quiet u v w h k = subst₂ (λ p started. AtMostOne p started w) h.0 h.1 k

proceed_starts :
    {A : Type 0} (f : A → M Answer) (w : World) (r : OrRequeue A) (v : World)
    → Stage w (r, v)
    → ((a : A) (u : World) → StartsAtMostOne u (f a u).1)
    → StartsAtMostOne w (proceed f r v).1
proceed_starts f w (continue a) v h k = StartsAtMostOne-Quiet w v (f a v).1 h (k a v)
proceed_starts f w (return res e) v h k = inl h

module _ (env : Env) where
  get_none : (name : String) (w : World) → StartsNone w (Kube.get env name w).1
  get_none name w = ground arith

  handle_finalizer_none : (w : World) → StartsNone w (handle_finalizer env w).1
  unfolding handle_finalizer
  handle_finalizer_none w = ground arith

  schedule_next_none : (w : World) → StartsNone w (schedule_next env w).1
  unfolding schedule_next
  schedule_next_none w = ground (arith, compute_next_delay-Quiet env w)

  pub after_upgrade_none : (e : Option Error) (w : World) → StartsNone w (after_upgrade env e w).1
  unfolding after_upgrade
  after_upgrade_none (some e) w = (compute_next_delay-Quiet env w).1
  after_upgrade_none none w = ground (arith, schedule_next_none w)

  run_upgrade_starts :
      (c : AwsClients) (ng : Nodegroup) (latest : String) (w : World)
      → StartsAtMostOne w (run_upgrade env c ng latest w).1
  unfolding run_upgrade
  run_upgrade_starts c ng latest w =
      let v : World = record w {
        metrics = set outdated_node_groups (w.policy.spec.cluster_name ∷ []) (number 0) ∷ w.metrics;
      } in
      let r = env.to_string ng.release_version in
      let (e, u) = process_upgrade env r latest c.eks v in
      let same = after_upgrade_none e u in
      elim (process_upgrade_cases env c.eks r latest v) [
        | inl no_start ↦ inl (same ∙ no_start)
        | inr (h, one) ↦ inr (c.eks, latest, same ∙ one, h.2, h.0)
      ]

module _ (env : Env) (documented : IsRetry env) where
  aws_work_starts : (w : World) → StartsAtMostOne w (aws_work env w).1
  unfolding aws_work
  aws_work_starts w = proceed_starts _ w _ _ (get_clients-Stage env w) λ c w₁.
      proceed_starts _ w₁ _ _ (describe_nodegroup-Stage env documented c w₁) λ ng w₂.
        proceed_starts _ w₂ _ _ (describe_cluster-Stage env c w₂) λ v w₃.
          proceed_starts _ w₃ _ _ (resolve_latest-Stage env documented c ng v w₃)
            λ latest w₄. run_upgrade_starts env c ng latest.1 w₄

  after_gate_starts :
      (w u : World) (g : Option CtrlResult)
      → Gate w (g, u)
      → StartsAtMostOne w (after_gate env g u).1
  unfolding after_gate
  after_gate_starts w u none quiet =
      StartsAtMostOne-Quiet w u (aws_work env u).1 quiet (aws_work_starts u)
  after_gate_starts w u (some res) same = inl same

  -- The guards of ShouldSkip let the policy of `w` through.
  after_guards_starts :
      (w u : World) (g : Option CtrlResult × Option Error)
      → Guarded env w (g, u)
      → StartsNone w (after_guards env g u).1
        ⊎ (Passes (should_skip env w.policy w).0 × StartsAtMostOne w (after_guards env g u).1)
  unfolding after_guards
  after_guards_starts w u (some res, e) same = inl same
  after_guards_starts w u (none, e) (quiet, passes) =
      let (g, v) = handle_schedule_gate env u in
      let starts = after_gate_starts u v g (schedule-Gate-Gate env u) in
      inr (passes, StartsAtMostOne-Quiet w u (after_gate env g v).1 quiet starts)

  -- What holds of the policy `p` when a reconcile starts an update at the state `w`.
  abbrev pub MayStart : World → Type 0
  MayStart w =
      (w.policy.spec.auto_upgrade ≡ true)
      × (is_tracked w.policy.status ≡ false)
      × (w.policy.spec.paused ≡ false)
      × IsStarted env w.policy (env.now w.tick)
      × IsCooled w.policy (cooldown_clock env w.policy w)

  -- The part of a reconcile behind the finalizer.
  after_finalizer_starts :
      (w : World) (f : Bool × Option Error)
      → StartsNone w (after_finalizer env f w).1
        ⊎ ((eks : Config) × (release : String) × StartsOne w.policy eks release w
              (after_finalizer env f w).1
            × MayStart w
            × (f.0 ≡ false))
  unfolding after_finalizer
  after_finalizer_starts w (true, e) = inl refl
  after_finalizer_starts w (false, some e) = inl refl
  after_finalizer_starts w (false, none) =
      let (g, u) = handle_guards env w in
      elim (after_guards_starts w u g (handle_guards-Guarded env w)) [
        | inl same ↦ inl same
        | inr (passes, inl same) ↦ inl same
        | inr (passes, inr (eks, release, one, auto, idle)) ↦
            (let (running, started, cooled) = conditions_of_Passes env w.policy w passes in
              inr (eks, release, one, (auto, idle, running, started, cooled), refl))
      ]

  reconcile_starts_from :
      (w u : World) (e : Option Error)
      → StartsNone w u
      → let v = (handle_finalizer env u).1 in
        StartsNone w (after_get env e u).1
        ⊎ ((eks : Config) × (release : String) × StartsOne v.policy eks release w
              (after_get env e u).1
            × MayStart v
            × (is_deleted u.policy.deletion_timestamp ≡ false))
  unfolding after_get
  reconcile_starts_from w u (some e) same = inl same
  reconcile_starts_from w u none same =
      let (f, v) = handle_finalizer env u in
      let before : StartsNone w v = handle_finalizer_none env u ∙ same in
      elim (after_finalizer_starts v f) [
        | inl no_start ↦ inl (no_start ∙ before)
        | inr (eks, release, one, may, going_on) ↦
            inr (eks, release, rw before at one, may, not_deleted_of_going_on env u going_on)
      ]

  -- With a backoff.Retry that runs as its documentation allows, a reconcile starts at most one
  -- update. If it starts one, it is of the node group that the policy names, and the policy is not
  -- being deleted, asks for upgrades, has no update in flight, is not paused, has reached its start
  -- time, and is on cron or out of its cooldown of six hours.
  pub reconcile_starts :
      (name : String) (w : World)
      → let u = (Kube.get env name w).1 in
        let v = (handle_finalizer env u).1 in
        StartsNone w (reconcile env name w).1
        ⊎ ((eks : Config) × (release : String) × StartsOne v.policy eks release w
              (reconcile env name w).1
            × MayStart v
            × (is_deleted u.policy.deletion_timestamp ≡ false))
  unfolding reconcile
  reconcile_starts name w =
      let (e, u) = Kube.get env name w in reconcile_starts_from w u e (get_none env name w)
