-- ===== src/Controller/Started.antt =====
-- An update that a run of internal/controller/nodegroupupgradepolicy_controller.go starts, to its end.
use eks_ami_operator.Base.{
  ℕ, ◌≡◌, ◌≢◌, refl, ap, ◌∙◌, arith, true, false, String, Option, none, ◌∷◌, str_eq, str_eq_sound,
  Bool, not, if◌then◌else◌, [],
}
use eks_ami_operator.Go.Error.{Error, ok}
use eks_ami_operator.Api.{Policy, Status}
use eks_ami_operator.World.{Config, Env, IsRetry, World, Nodegroup}
use eks_ami_operator.World.Kube
use eks_ami_operator.Metrics.{set, number, outdated_node_groups}
use eks_ami_operator.Aws.{AwsClients}
use eks_ami_operator.Upgrade.{
  is_tracked, stamp_next_cron_window, set_skipped, on_initiation, initiate, handle_not_in_flight,
  record_check, process_upgrade,
}
use eks_ami_operator.Upgrade.Process.{
  IsUpgradable, outdated, track_idle, StartsOne, process_upgrade_starts_iff,
}
use eks_ami_operator.Controller.Schedule.{is_in_flight, poll_delay, requeue}
use eks_ami_operator.Controller.Reconcile.{after_upgrade, run_upgrade, reconcile}
use eks_ami_operator.Controller.Polling.{Accepts}
use eks_ami_operator.Controller.Following.{flying, Tracks, Watch}
use eks_ami_operator.Controller.Watching.{Watched}
use eks_ami_operator.Controller.Completed.{Finishes, Watched-IsCompleted}

-- EKS takes every update, and calls it `id`.
pub record Takes (env : Env) (id : String) : Type 0 where
  pub takes :
      (k : ℕ) (c : Config) (cluster name release : String)
      → (x : Option String) × (env.update_nodegroup_version k c cluster name release ≡ ok x)
        × (env.to_string x ≡ id)
  pub named : id ≢ ""

-- The policy is stored with no error, with the update `id` in flight.
abbrev Begun : String → Option Error × World → Type 0
Begun id (e, v) = (e ≡ none) × Tracks id v

is_tracked_id :
    (s : Status) (id : String)
    → id ≢ ""
    → s.upgrade_status ≡ "InProgress"
    → s.update_id ≡ id
    → is_tracked s ≡ true
is_tracked_id s id named going same = rw (going, same) (ground (arith, named, str_eq_sound id ""))

module _ (env : Env) (server : Accepts env) (id : String) (eks_takes : Takes env id) where
  stored-Begun :
      (w : World)
      → w.policy.status.upgrade_status ≡ "InProgress"
      → w.policy.status.update_id ≡ id
      → Begun id (Kube.update_status env w)
  stored-Begun w going same =
      let (q, e, stored) = server.accepts w.tick w.policy in
      let id_same = ap (λ (s : Status). s.update_id) stored ∙ same in
      let tracked =
        is_tracked_id q.status id eks_takes.named
          (ap (λ (s : Status). s.upgrade_status) stored ∙ going) id_same in
      rw e (refl, (tracked, id_same))

  stamped_same :
      (w : World)
      → let s = (stamp_next_cron_window env w).1.policy.status in
        (s.upgrade_status ≡ w.policy.status.upgrade_status)
        × (s.update_id ≡ w.policy.status.update_id)
  unfolding stamp_next_cron_window
  stamped_same w = ground arith

  initiate-Begun :
      (p : Policy) (eks : Config) (latest : String) (w : World)
      → Begun id (initiate env p eks latest w)
  unfolding initiate on_initiation
  initiate-Begun p eks latest w =
      let (x, e, same) =
        eks_takes.takes w.tick eks p.spec.cluster_name p.spec.node_group_name latest in
      rw e (let (going, kept) = stamped_same _ in stored-Begun _ going (kept ∙ same))

  outdated-Begun :
      (auto : Bool) (p : Policy) (eks : Config) (latest : String) (w : World)
      → auto ≡ true
      → Begun id ((if not auto then set_skipped env p else initiate env p eks latest) w)
  outdated-Begun true p eks latest w h = initiate-Begun p eks latest w
  outdated-Begun false p eks latest w h = absurd (ground (arith, h))

  handle-Begun :
      (same : Bool) (eks : Config) (current latest : String) (w : World)
      → str_eq current latest ≡ same
      → current ≢ latest
      → w.policy.spec.auto_upgrade ≡ true
      → Begun id (handle_not_in_flight env eks current latest w)
  unfolding handle_not_in_flight
  handle-Begun true eks current latest w e differ auto =
      absurd (differ (str_eq_sound current latest e))
  handle-Begun false eks current latest w e differ auto =
      rw e (outdated-Begun w.policy.spec.auto_upgrade w.policy eks latest (outdated env w) auto)

  process_upgrade-Begun :
      (eks : Config) (current latest : String) (w : World)
      → IsUpgradable env w.policy current latest
      → Begun id (process_upgrade env current latest eks w)
  unfolding process_upgrade record_check
  process_upgrade-Begun eks current latest w (idle, differ, auto) =
      let v = (record_check env current latest w).1 in
      rw (track_idle env eks v idle)
        (handle-Begun (str_eq current latest) eks current latest v refl differ auto)

  -- The run ends with no error and a requeue after two minutes, and the one update that it started is
  -- in flight.
  run_upgrade_begins :
      (c : AwsClients) (ng : Nodegroup) (latest : String) (w : World)
      → IsUpgradable env w.policy (env.to_string ng.release_version) latest
      → let (r, v) = run_upgrade env c ng latest w in
        (r ≡ (requeue poll_delay, none)) × Tracks id v × StartsOne w.policy c.eks latest w v
  unfolding run_upgrade after_upgrade
  run_upgrade_begins c ng latest w upgradable =
      let start : World = record w {
        metrics = set outdated_node_groups (w.policy.spec.cluster_name ∷ []) (number 0) ∷ w.metrics;
      } in
      let current = env.to_string ng.release_version in
      let (e, v) = process_upgrade env current latest c.eks start in
      let (fine, tracked) = process_upgrade-Begun c.eks current latest start upgradable in
      let one = (process_upgrade_starts_iff env c.eks current latest start).0 upgradable in
      rw (fine, flying v.policy tracked.0) (refl, tracked, one)

-- An outdated node group is updated once. A run for a policy that asks for it, with none in flight,
-- starts an update, and ends with no error and a requeue after two minutes. After however many
-- reconciles that meet the update running, one in which EKS says that it is successful, or that it
-- failed or was cancelled, ends with no error and leaves the policy Succeeded, or Failed, with nothing
-- in flight; the first update is the only one that was started. EKS takes the update and names it. In
-- the last reconcile every call of AWS is answered, and the group is not of an AL2 type. backoff.Retry
-- runs as documented, the API server takes every status, and the policy is as Watch says.
pub Watched-StartsOne :
    (env : Env)
    → Accepts env
    → (id : String) → Takes env id
    → (c : AwsClients) (ng : Nodegroup) (latest : String) (w v : World)
    → IsUpgradable env w.policy (env.to_string ng.release_version) latest
    → Watched id (run_upgrade env c ng latest w).1 v
    → (env' : Env) → IsRetry env'
    → (s : String) → Finishes env' id s
    → Accepts env'
    → (name : String) → Watch env' name v
    → let (r, u) = reconcile env' name v in
      ((run_upgrade env c ng latest w).0 ≡ (requeue poll_delay, none))
      × (r.1 ≡ none)
      × (u.policy.status.upgrade_status ≡ s)
      × (is_in_flight u.policy ≡ false)
      × StartsOne w.policy c.eks latest w u
Watched-StartsOne env server id eks_takes c ng latest w v upgradable watched env' documented s
      answers server' name x =
    let (soon, tracked, one) =
      run_upgrade_begins env server id eks_takes c ng latest w upgradable in
    let (fine, same, landed, quiet) =
      Watched-IsCompleted id (run_upgrade env c ng latest w).1 v tracked watched env' documented s
        answers server' name x in
    (soon, fine, same, landed, quiet ∙ one)
