-- ===== src/Upgrade/Lost.antt =====
-- An update whose status is not stored, in ProcessUpgrade of internal/upgrade/upgrade.go.
use eks_ami_operator.Base.{
  ℕ, ◌≡◌, refl, ap, ◌∙◌, Bool, true, false, String, ◌∷◌, Option, some, str_eq, not, if◌then◌else◌,
}
use eks_ami_operator.Go.Error.{Error, Result, ok, err}
use eks_ami_operator.Api.{Policy}
use eks_ami_operator.World.{Config, Call, Env, World}
use eks_ami_operator.World.Kube
use eks_ami_operator.World.Kube.{called, received}
use eks_ami_operator.World.Frame.{initiations}
use eks_ami_operator.Upgrade.Track.{is_tracked}
use eks_ami_operator.Upgrade.Initiate.{
  set_compliant, set_skipped, on_initiation, initiate, handle_not_in_flight, record_check,
  process_upgrade,
}
use eks_ami_operator.Upgrade.Process.{
  IsUpgradable, outdated, track_idle, process_upgrade_starts_iff,
}

-- The API server refuses every status, as it does for an object that was changed since it was read.
pub record Refuses (env : Env) : Type 0 where
  pub refuses : (k : ℕ) (p : Policy) → (e : Error) × (env.update_status k p ≡ err e)

abbrev pub IsError : Option Error → Type 0
IsError r = (e : Error) × (r ≡ some e)

module _ (env : Env) (server : Refuses env) where
  update_status-IsError : (w : World) → IsError (Kube.update_status env w).0
  update_status-IsError w =
      let (e, q) = server.refuses w.tick w.policy in
      (e, ap (λ r. (received r (called (Call.update_status w.policy) w)).0) q)

  on_initiation-IsError :
      (p : Policy) (r : Result (Option String)) (w : World) → IsError (on_initiation env p r w).0
  unfolding on_initiation
  on_initiation-IsError p (err _) w = update_status-IsError _
  on_initiation-IsError p (ok id) w = update_status-IsError _

  initiate-IsError :
      (p : Policy) (eks : Config) (latest : String) (w : World)
      → IsError (initiate env p eks latest w).0
  unfolding initiate
  initiate-IsError p eks latest w = on_initiation-IsError p _ _

  outdated-IsError :
      (auto : Bool) (p : Policy) (eks : Config) (latest : String) (w : World)
      → IsError ((if not auto then set_skipped env p else initiate env p eks latest) w).0
  unfolding set_skipped
  outdated-IsError true p eks latest w = initiate-IsError p eks latest w
  outdated-IsError false p eks latest w = update_status-IsError _

  handle-IsError :
      (same : Bool) (eks : Config) (current latest : String) (w : World)
      → str_eq current latest ≡ same
      → IsError (handle_not_in_flight env eks current latest w).0
  unfolding handle_not_in_flight set_compliant
  handle-IsError true eks current latest w e = rw e (update_status-IsError _)
  handle-IsError false eks current latest w e =
      rw e (outdated-IsError w.policy.spec.auto_upgrade w.policy eks latest (outdated env w))

  process_upgrade-IsError :
      (eks : Config) (current latest : String) (w : World)
      → is_tracked w.policy.status ≡ false
      → IsError (process_upgrade env current latest eks w).0
  unfolding process_upgrade record_check
  process_upgrade-IsError eks current latest w idle =
      let v = (record_check env current latest w).1 in
      rw (track_idle env eks v idle)
        (handle-IsError (str_eq current latest) eks current latest v refl)

-- An update whose status the API server refuses is forgotten: ProcessUpgrade reports the error, and
-- the next run, on the policy as the API server still holds it, starts a second update of the node
-- group to the same release.
pub process_upgrade_forgets :
    (env env' : Env)
    → Refuses env
    → (eks : Config) (current latest : String) (w v : World)
    → IsUpgradable env w.policy current latest
    → v.policy ≡ w.policy
    → v.calls ≡ (process_upgrade env current latest eks w).1.calls
    → let p = w.policy in
      let c = Call.update_nodegroup_version eks p.spec.cluster_name p.spec.node_group_name latest in
      IsError (process_upgrade env current latest eks w).0
      × (initiations (process_upgrade env' current latest eks v).1.calls
          ≡ c ∷ c ∷ initiations w.calls)
process_upgrade_forgets env env' server eks current latest w v upgradable same later =
    let p = w.policy in
    let c = Call.update_nodegroup_version eks p.spec.cluster_name p.spec.node_group_name latest in
    let first = (process_upgrade_starts_iff env eks current latest w).0 upgradable in
    let again = (process_upgrade_starts_iff env' eks current latest v).0 (rw same upgradable) in
    (
      process_upgrade-IsError env server eks current latest w upgradable.0,
      again ∙ rw (same, later) (ap (λ cs. c ∷ cs) first),
    )
