-- ===== src/Controller/Ready.antt =====
-- When computeNextDelay gives a positive delay, and the stages of Reconcile in
-- internal/controller/nodegroupupgradepolicy_controller.go that end with it.
use eks_ami_operator.Base.{
  ℕ, zero, suc, ◌+◌, ◌-◌, ◌^◌, ◌≤◌, ◌≡◌, refl, sym, String, ◌∷◌, Option, none, some, Bool-cases,
  inl, inr, arith,
}
use mathlib.Core.Path.{subst}
use eks_ami_operator.Base.Int.{ℤ, pos, ◌<ℤ◌, ◌≤ℤ◌, leb_ℤ, leb_ℤ→gt, int_laws}
use eks_ami_operator.Go.Time.{Time}
use eks_ami_operator.Go.Error.{Error, Result, ok, err}
use eks_ami_operator.Api.{Policy}
use eks_ami_operator.Metrics.{set, seconds, next_run_seconds}
use eks_ami_operator.World.{Calendar, Env, IsRandom, IsMonotone, World, Nodegroup}
use eks_ami_operator.World.Frame.{Quiet}
use eks_ami_operator.World.Stores.{decoded}
use eks_ami_operator.Scheduler.{parse_interval, next_run}
use eks_ami_operator.Aws.{AwsClients, new_aws_clients, describe_cluster}
use eks_ami_operator.Upgrade.{labels}
use eks_ami_operator.Controller.Schedule.{
  CtrlResult, compute_next_delay, is_in_flight, gate, gate_result, when_to_run_next,
  jitter_interval, handle_schedule_gate,
}
use eks_ami_operator.Controller.Requeue.{
  OrRequeue, continue, return, soon_or, on_clients, on_nodegroup, on_cluster,
  get_clients_or_requeue, describe_cluster_or_requeue,
}
use eks_ami_operator.Controller.Quiet.{new_aws_clients-Quiet, describe_cluster-Quiet}
use eks_ami_operator.Controller.Delay.{compute_next_delay-pos}

-- The API server answers a status update with the specification and the status that it was sent.
pub record IsStore (env : Env) : Type 0 where
  pub same :
      (k : ℕ) (p q : Policy)
      → env.update_status k p ≡ ok q
      → (q.spec ≡ p.spec) × (q.status.last_checked ≡ p.status.last_checked)

-- A positive interval of at most 2^62 nanoseconds, and a last check that is not after the instant.
abbrev pub IsReadyAt : Calendar → Policy → Time → Type 0
IsReadyAt cal p t =
    (pos 0 <ℤ parse_interval cal p.spec.check_interval)
    × (parse_interval cal p.spec.check_interval ≤ℤ pos (2 ^ 62))
    × (p.status.last_checked ≤ℤ t)

abbrev pub IsReady : Env → World → Type 0
IsReady env w = IsReadyAt env.calendar w.policy (env.now w.tick)

module _ (env : Env) (monotone : IsMonotone env) where
  pub now-add : (m d : ℕ) → env.now m ≤ℤ env.now (m + d)
  now-add m zero =
      let same : m ≡ m + 0 = omega arith in subst (λ k. env.now m ≤ℤ env.now k) same (omega arith)
  now-add m (suc d) =
      let next : suc (m + d) ≡ m + suc d = omega arith in
      subst (λ k. env.now m ≤ℤ env.now k) next (omega (arith, now-add m d, monotone (m + d)))

  pub now-le : (m n : ℕ) → m ≤ n → env.now m ≤ℤ env.now n
  now-le m n h = subst (λ k. env.now m ≤ℤ env.now k) (omega arith) (now-add m (n - m))

  pub Quiet-IsReady : (w v : World) → Quiet w v → IsReady env w → IsReady env v
  Quiet-IsReady w v q (positive, short, past) =
      let later = now-le w.tick v.tick q.3 in
      subst (λ p. IsReadyAt env.calendar p (env.now v.tick)) (sym q.0)
        (positive, short, omega (int_laws, past, later))

-- A delay for which controller-runtime queues the policy again.
abbrev pub Queues : CtrlResult → Type 0
Queues res = pos 0 <ℤ res.requeue_after

-- A stage that ends the reconcile queues the policy again.
abbrev pub Ends : {A : Type 0} → OrRequeue A → Type 0
Ends (continue _) = Unit {0}
Ends (return res _) = Queues res

-- The schedule gate, if it holds the policy back, queues it again.
abbrev pub Waits : Option CtrlResult → Type 0
Waits none = Unit {0}
Waits (some res) = Queues res

pub decoded-same :
    (env : Env) (p : Policy) (k : ℕ)
    → IsStore env
    → let q = decoded p (env.update_status k p) in
      (q.spec ≡ p.spec) × (q.status.last_checked ≡ p.status.last_checked)
decoded-same env p k store = go (env.update_status k p) (store.same k p)
  where
    go :
        (r : Result Policy)
        → ((q : Policy)
            → r ≡ ok q
            → (q.spec ≡ p.spec) × (q.status.last_checked ≡ p.status.last_checked))
        → ((decoded p r).spec ≡ p.spec)
          × ((decoded p r).status.last_checked ≡ p.status.last_checked)
    go (ok q) h = h q refl
    go (err e) h = (refl, refl)

module _ (env : Env) (random : IsRandom env) (monotone : IsMonotone env) where
  pub delay-Queues : (w : World) → IsReady env w → pos 0 <ℤ (compute_next_delay env w).0
  delay-Queues w (positive, short, past) = compute_next_delay-pos env random w positive short past

  pub soon_or-Ends :
      (A : Type 0) (e : Option Error) (w : World) → IsReady env w → Ends (soon_or env {A = A} e w).0
  soon_or-Ends A e w ready = elim (Bool-cases (is_in_flight w.policy)) [
    | inl flying ↦ rw flying (omega arith)
    | inr landed ↦ rw landed (delay-Queues w ready)
  ]

  pub on_clients-Ends :
      (r : Result AwsClients) (w : World) → IsReady env w → Ends (on_clients env r w).0
  unfolding on_clients
  on_clients-Ends (ok c) w ready = tt
  on_clients-Ends (err e) w ready = soon_or-Ends AwsClients (some e) w ready

  pub on_nodegroup-Ends :
      (r : Result Nodegroup) (w : World) → IsReady env w → Ends (on_nodegroup env r w).0
  unfolding on_nodegroup
  on_nodegroup-Ends (ok ng) w ready = tt
  on_nodegroup-Ends (err _) w ready = soon_or-Ends Nodegroup none w ready

  pub on_cluster-Ends :
      (r : Result String) (w : World) → IsReady env w → Ends (on_cluster env r w).0
  unfolding on_cluster
  on_cluster-Ends (ok v) w ready = tt
  on_cluster-Ends (err e) w ready = delay-Queues w ready

  pub get_clients-Ends : (w : World) → IsReady env w → Ends (get_clients_or_requeue env w).0
  unfolding get_clients_or_requeue
  get_clients-Ends w ready =
      let (r, v) = new_aws_clients env w.policy.spec.region w in
      on_clients-Ends r v
        (Quiet-IsReady env monotone w v (new_aws_clients-Quiet env w.policy.spec.region w) ready)

  pub describe_cluster-Ends :
      (c : AwsClients) (w : World) → IsReady env w → Ends (describe_cluster_or_requeue env c w).0
  unfolding describe_cluster_or_requeue
  describe_cluster-Ends c w ready =
      let cluster = w.policy.spec.cluster_name in
      let (r, v) = describe_cluster env c.eks cluster w in
      on_cluster-Ends r v
        (Quiet-IsReady env monotone w v (describe_cluster-Quiet env c.eks cluster w) ready)

  pub gate-Waits : (t d : ℤ) (w : World) → Waits (gate_result env (gate env t d w).0)
  unfolding gate
  gate-Waits t d w = elim (Bool-cases (leb_ℤ d (pos 0))) [
    | inl due ↦ rw due tt
    | inr later ↦ rw later (leb_ℤ→gt d (pos 0) later)
  ]

  pub schedule_gate-Waits : (w : World) → Waits (handle_schedule_gate env w).0
  unfolding handle_schedule_gate when_to_run_next
  schedule_gate-Waits w =
      let t = env.now w.tick in
      let n = next_run env.calendar t w.policy.status.last_checked w.policy in
      let (d, u) = jitter_interval env n (record w { tick = suc (w.tick) }) in
      let v : World = record u {
        metrics = set next_run_seconds (labels w.policy) (seconds d) ∷ u.metrics;
      } in
      elim (Bool-cases (is_in_flight w.policy)) [
        | inl flying ↦ rw flying tt
        | inr landed ↦ rw landed (gate-Waits t d v)
      ]
