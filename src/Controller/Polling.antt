-- ===== src/Controller/Polling.antt =====
-- How a run of internal/controller/nodegroupupgradepolicy_controller.go follows an update that is in
-- flight.
use eks_ami_operator.Base.{
  ℕ, suc, ◌≡◌, refl, ap, arith, Bool, true, String, str_eq, Option, none, [], ◌∷◌, Bool-cases, inl,
  inr,
}
use eks_ami_operator.Go.Time.{is_zero}
use eks_ami_operator.Go.Error.{Error, Result, ok, err}
use eks_ami_operator.Api.{Policy, Status}
use eks_ami_operator.World.{Config, Env, World, Nodegroup}
use eks_ami_operator.Metrics.{set, number, outdated_node_groups}
use eks_ami_operator.Aws.{AwsClients, UpdateOutcome, describe_nodegroup_update}
use eks_ami_operator.Upgrade.{
  handled, keep_in_flight, on_status, on_outcome, is_tracked, track_in_flight_update, record_check,
  process_upgrade, eks_in_progress,
}
use eks_ami_operator.Upgrade.Lit.{still_running}
use eks_ami_operator.Controller.Schedule.{is_in_flight, poll_delay, requeue}
use eks_ami_operator.Upgrade.Process.{StartsNone, process_upgrade_starts_iff}
use eks_ami_operator.Controller.Reconcile.{Answer, after_upgrade, run_upgrade}

-- The API server takes every status, and answers with it.
pub record Accepts (env : Env) : Type 0 where
  pub accepts :
      (k : ℕ) (p : Policy) → (q : Policy) × (env.update_status k p ≡ ok q) × (q.status ≡ p.status)

-- The policy names the same update, with the same state.
abbrev SameUpdate : Status → Status → Type 0
SameUpdate s t = (t.upgrade_status ≡ s.upgrade_status) × (t.update_id ≡ s.update_id)

-- An update that is left in flight: the run goes on with no error.
abbrev Left : World → (Bool × Option Error) × World → Type 0
Left w (r, v) = (r ≡ (true, none)) × SameUpdate w.policy.status v.policy.status

abbrev still : Result UpdateOutcome → Bool
still (err _) = true
still (ok o) = str_eq o.status eks_in_progress

-- A reconcile that polls: it ends with a requeue after two minutes and no error, the update `id` is in
-- flight, and no other is started.
abbrev pub IsPolled : String → World → Answer × World → Type 0
IsPolled id w (r, v) =
    (r ≡ (requeue poll_delay, none))
    × (is_in_flight v.policy ≡ true)
    × (v.policy.status.update_id ≡ id)
    × StartsNone w v

module _ (env : Env) (server : Accepts env) where
  handled-Left : (w : World) → Left w (handled env w)
  handled-Left w =
      let (q, e, same) = server.accepts w.tick w.policy in
      rw e
        (refl, (ap (λ (s : Status). s.upgrade_status) same, ap (λ (s : Status). s.update_id) same))

  keep_in_flight-Left : (p : Policy) (w : World) → Left w (keep_in_flight env p w)
  unfolding keep_in_flight
  keep_in_flight-Left p w = elim (Bool-cases (is_zero p.status.last_upgrade_attempt)) [
    | inl never ↦ rw never (handled-Left _)
    | inr once ↦ rw once (handled-Left _)
  ]

  on_outcome-Left :
      (p : Policy) (r : Result UpdateOutcome) (w : World)
      → still r ≡ true
      → Left w (on_outcome env p r w)
  unfolding on_outcome on_status
  on_outcome-Left p (err e) w h = keep_in_flight-Left p w
  on_outcome-Left p (ok o) w h = rw h (keep_in_flight-Left p _)

  polled-Left :
      (p : Policy) (eks : Config) (w : World)
      → still_running (
          env.describe_update w.tick eks p.spec.cluster_name p.spec.node_group_name
            p.status.update_id)
        ≡ true
      → let (r, v) =
          describe_nodegroup_update env eks p.spec.cluster_name p.spec.node_group_name
            p.status.update_id w in
        Left w (on_outcome env p r v)
  unfolding describe_nodegroup_update
  polled-Left p eks w h = on_outcome-Left p _ _ (ground arith)

  track-Left :
      (eks : Config) (w : World)
      → is_tracked w.policy.status ≡ true
      → still_running (
          env.describe_update w.tick eks w.policy.spec.cluster_name w.policy.spec.node_group_name
            w.policy.status.update_id)
        ≡ true
      → Left w (track_in_flight_update env eks w)
  unfolding track_in_flight_update
  track-Left eks w tracked running = rw tracked (polled-Left w.policy eks w running)

  in_flight_same :
      (p q : Policy)
      → is_tracked p.status ≡ true
      → SameUpdate p.status q.status
      → is_in_flight q ≡ true
  unfolding is_in_flight
  in_flight_same p q tracked same = rw (same.0, same.1) (ground arith)

  -- A run for a policy with an update in flight, as long as EKS says that it is running or does not
  -- answer: the update stays in flight, no other is started, and the policy is queued again after two
  -- minutes.
  pub run_upgrade_polls :
      (c : AwsClients) (ng : Nodegroup) (latest : String) (w : World)
      → is_tracked w.policy.status ≡ true
      → still_running (
          env.describe_update
            (suc (suc w.tick))
            c.eks
            w.policy.spec.cluster_name
            w.policy.spec.node_group_name
            w.policy.status.update_id)
        ≡ true
      → IsPolled w.policy.status.update_id w (run_upgrade env c ng latest w)
  unfolding run_upgrade process_upgrade record_check after_upgrade
  run_upgrade_polls c ng latest w tracked running =
      let start : World = record w {
        metrics = set outdated_node_groups (w.policy.spec.cluster_name ∷ []) (number 0) ∷ w.metrics;
      } in
      let current = env.to_string ng.release_version in
      let (_, v) = record_check env current latest start in
      let (r, u) = track_in_flight_update env c.eks v in
      let (done, same) = track-Left c.eks v tracked running in
      let flying = in_flight_same w.policy u.policy tracked same in
      let none_started =
        (process_upgrade_starts_iff env c.eks current latest start).1
          (λ upgradable. absurd (ground (arith, upgradable, tracked))) in
      rw (done, flying) (refl, flying, same.1, rw done at none_started)
