-- ===== src/Controller/Completing.antt =====
-- How a run of internal/controller/nodegroupupgradepolicy_controller.go completes an update that was
-- in flight.
use eks_ami_operator.Base.{
  suc, ◌≡◌, ◌⊎◌, inl, inr, refl, sym, ap, ◌∙◌, arith, true, false, String, none, Option, Bool, [],
  ◌∷◌,
}
use eks_ami_operator.Go.Error.{Error, Result, ok}
use eks_ami_operator.Api.{Policy, Status}
use eks_ami_operator.World.{Config, Env, World, Nodegroup, Update}
use eks_ami_operator.World.Kube
use eks_ami_operator.Metrics.{set, number, outdated_node_groups}
use eks_ami_operator.Aws.{AwsClients, UpdateOutcome, describe_nodegroup_update}
use eks_ami_operator.Upgrade.{
  handled, set_terminal_success, set_terminal_failure, on_status, on_outcome, is_tracked,
  track_in_flight_update, record_check, process_upgrade, eks_successful, eks_failed, eks_cancelled,
  upgrade_status_succeeded, upgrade_status_failed,
}
use eks_ami_operator.Upgrade.Process.{StartsNone, process_upgrade_starts_iff}
use eks_ami_operator.Controller.Schedule.{is_in_flight, compute_next_delay}
use eks_ami_operator.Controller.Quiet.{compute_next_delay-Quiet}
use eks_ami_operator.Controller.Reconcile.{Answer, schedule_next, after_upgrade, run_upgrade}
use eks_ami_operator.Controller.Polling.{Accepts}

-- What upgradeStatus becomes when EKS says that the update is done.
abbrev pub IsFinal : String → String → Type 0
IsFinal said s =
    ((said ≡ eks_successful) × (s ≡ upgrade_status_succeeded))
    ⊎ ((said ≡ eks_failed) × (s ≡ upgrade_status_failed))
    ⊎ ((said ≡ eks_cancelled) × (s ≡ upgrade_status_failed))

-- The read of the update says that it is done.
abbrev pub SaysDone : String → Result Update → Type 0
SaysDone s r = (u : Update) × (r ≡ ok u) × IsFinal u.status s

-- A reconcile that completes: no error, nothing in flight any more, and no update started.
abbrev pub IsCompleted : String → World → Answer × World → Type 0
IsCompleted s w ((_, e), v) =
    (e ≡ none)
    × (v.policy.status.upgrade_status ≡ s)
    × (is_in_flight v.policy ≡ false)
    × StartsNone w v

abbrev Reached : String → (Bool × Option Error) × World → Type 0
Reached s (r, v) = (r ≡ (true, none)) × (v.policy.status.upgrade_status ≡ s)

final_landed :
    (said s : String) (p : Policy)
    → IsFinal said s
    → p.status.upgrade_status ≡ s
    → is_in_flight p ≡ false
unfolding is_in_flight
final_landed said s p (inl (_, e)) h = rw (h, e) refl
final_landed said s p (inr (inl (_, e))) h = rw (h, e) refl
final_landed said s p (inr (inr (_, e))) h = rw (h, e) refl

module _ (env : Env) (server : Accepts env) where
  handled-Reached :
      (s : String) (w : World) → w.policy.status.upgrade_status ≡ s → Reached s (handled env w)
  handled-Reached s w h =
      let (q, e, same) = server.accepts w.tick w.policy in
      rw e (refl, ap (λ (x : Status). x.upgrade_status) same ∙ h)

  on_status-Reached :
      (p : Policy) (o : UpdateOutcome) (s : String) (w : World)
      → IsFinal o.status s
      → Reached s (on_status env p o w)
  unfolding on_status set_terminal_success set_terminal_failure
  on_status-Reached p o s w (inl (said, e)) = rw said (handled-Reached s _ (sym e))
  on_status-Reached p o s w (inr (inl (said, e))) = rw said (handled-Reached s _ (sym e))
  on_status-Reached p o s w (inr (inr (said, e))) = rw said (handled-Reached s _ (sym e))

  track-Reached :
      (eks : Config) (s : String) (w : World)
      → is_tracked w.policy.status ≡ true
      → SaysDone s (
          env.describe_update w.tick eks w.policy.spec.cluster_name w.policy.spec.node_group_name
            w.policy.status.update_id)
      → Reached s (track_in_flight_update env eks w)
  unfolding track_in_flight_update describe_nodegroup_update on_outcome
  track-Reached eks s w tracked (u, answered, final) =
      rw (tracked, answered) (on_status-Reached w.policy _ s _ final)

  update_status_lands :
      (s : String) (w : World)
      → w.policy.status.upgrade_status ≡ s
      → let v = (Kube.update_status env w).1 in
        (v.policy.status.upgrade_status ≡ s) × StartsNone w v
  update_status_lands s w h =
      let (q, e, same) = server.accepts w.tick w.policy in
      rw e (ap (λ (x : Status). x.upgrade_status) same ∙ h, refl)

  schedule_next-IsCompleted :
      (said s : String) (w : World)
      → IsFinal said s
      → w.policy.status.upgrade_status ≡ s
      → IsCompleted s w (schedule_next env w)
  unfolding schedule_next
  schedule_next-IsCompleted said s w final h =
      let (d, v) = compute_next_delay env w in
      let q = compute_next_delay-Quiet env w in
      let (lands, quiet) =
        update_status_lands s _ (ap (λ (p : Policy). p.status.upgrade_status) q.0 ∙ h) in
      (refl, lands, final_landed said s _ final lands, quiet ∙ q.1)

  -- A run for a policy with an update in flight, once EKS says that the update is done: the policy
  -- has the final status, and no other update is started.
  pub run_upgrade_completes :
      (c : AwsClients) (ng : Nodegroup) (latest s : String) (w : World)
      → is_tracked w.policy.status ≡ true
      → SaysDone s (
          env.describe_update
            (suc (suc w.tick))
            c.eks
            w.policy.spec.cluster_name
            w.policy.spec.node_group_name
            w.policy.status.update_id)
      → IsCompleted s w (run_upgrade env c ng latest w)
  unfolding run_upgrade process_upgrade record_check after_upgrade
  run_upgrade_completes c ng latest s w tracked (u, answered, final) =
      let start : World = record w {
        metrics = set outdated_node_groups (w.policy.spec.cluster_name ∷ []) (number 0) ∷ w.metrics;
      } in
      let current = env.to_string ng.release_version in
      let (_, v) = record_check env current latest start in
      let (r, x) = track_in_flight_update env c.eks v in
      let (done, reached) = track-Reached c.eks s v tracked (u, answered, final) in
      let landed = final_landed u.status s x.policy final reached in
      let none_started =
        (process_upgrade_starts_iff env c.eks current latest start).1
          (λ upgradable. absurd (ground (arith, upgradable, tracked))) in
      let (e, lands, flat, quiet) = schedule_next-IsCompleted u.status s x final reached in
      rw (done, landed) (e, lands, flat, quiet ∙ (rw done at none_started))
