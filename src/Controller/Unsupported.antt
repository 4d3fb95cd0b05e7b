-- ===== src/Controller/Unsupported.antt =====
-- A node group with AL2 on a version without AL2 images, in resolveLatestOrRequeue of
-- internal/controller/nodegroupupgradepolicy_controller.go.
use eks_ami_operator.Base.{
  ◌≡◌, ◌≢◌, refl, sym, ◌∙◌, arith, true, false, String, str_ne, List, ◌∷◌, none,
}
use mathlib.Core.List.{Memᴰ}
use eks_ami_operator.Api.{Policy, Condition}
use eks_ami_operator.World.{Env, World, Nodegroup}
use eks_ami_operator.World.Frame.{initiations}
use eks_ami_operator.World.Stores.{stores, Stored, persist-Stored}
use eks_ami_operator.Aws.{AwsClients, is_unpublished, resolve_latest_ami}
use eks_ami_operator.Controller.Conditions.{set_condition}
use eks_ami_operator.Controller.Schedule.{is_in_flight, requeue, compute_next_delay}
use eks_ami_operator.Controller.Requeue.{
  return, set_unsupported, on_latest, resolve_latest_or_requeue,
}
use eks_ami_operator.Controller.Quiet.{compute_next_delay-Quiet}

-- A condition of the type `t`, with the status `s` and the reason `r`, is among the conditions.
abbrev pub Says : String → String → String → List Condition → Type 0
Says t s r cs =
    (c : Condition) × Memᴰ c cs × (c.condition_type ≡ t) × (c.status ≡ s) × (c.reason ≡ r)

-- The status of such a node group: skipped, with both conditions, and with no update in flight.
abbrev pub IsReported : Policy → Type 0
IsReported p =
    (p.status.upgrade_status ≡ "Skipped")
    × Says "AMICompliance" "False" "UnsupportedAMI" p.status.conditions
    × Says "UpgradeInProgress" "False" "UnsupportedAMI" p.status.conditions
    × (is_in_flight p ≡ false)

-- What the documentation of meta.SetStatusCondition says: the condition is there afterwards, and
-- those of other types are left.
pub record IsMeta (env : Env) : Type 0 where
  pub sets :
      (cs : List Condition) (c : Condition)
      → Says c.condition_type c.status c.reason (env.set_status_condition cs c)
  pub leaves :
      (cs : List Condition) (c d : Condition)
      → Memᴰ d cs
      → d.condition_type ≢ c.condition_type
      → Memᴰ d (env.set_status_condition cs c)

module _ (env : Env) (documented : IsMeta env) where
  Says-leaves :
      (t s r : String) (cs : List Condition) (c : Condition)
      → t ≢ c.condition_type
      → Says t s r cs
      → Says t s r (env.set_status_condition cs c)
  Says-leaves t s r cs c differs (d, here, same, state, reason) =
      (d, documented.leaves cs c d here (λ h. differs (sym same ∙ h)), same, state, reason)

  set_unsupported-IsReported : (w : World) → Stored env IsReported w (set_unsupported env w).1
  unfolding set_unsupported set_condition is_in_flight
  set_unsupported-IsReported w = persist-Stored env w _ refl (omega arith) (
    refl,
    documented.sets _ _,
    Says-leaves "UpgradeInProgress" "False" "UnsupportedAMI" _ _
        (str_ne "UpgradeInProgress" "AMICompliance" refl) (documented.sets _ _),
    refl,
  )

  initiations-set_unsupported :
      (w : World) → initiations (set_unsupported env w).1.calls ≡ initiations w.calls
  unfolding set_unsupported set_condition
  initiations-set_unsupported w = ground arith

  -- For an AL2 group on a version from minor 33 on, resolveLatestOrRequeue ends the reconcile with no
  -- error, and with the delay that computeNextDelay gives. It starts no update, and stores one
  -- status, which is Skipped, with the conditions AMICompliance and UpgradeInProgress both False for
  -- UnsupportedAMI; an update that was in flight is in flight no more. meta.SetStatusCondition is
  -- taken to set the condition and to leave those of other types.
  pub resolve_latest_or_requeue-IsReported :
      (c : AwsClients) (ng : Nodegroup) (version : String) (w : World)
      → is_unpublished ng.ami_type version ≡ true
      → let (r, u) = resolve_latest_or_requeue env c ng version w in
        (r ≡ return (requeue (compute_next_delay env (set_unsupported env w).1).0) none)
        × (initiations u.calls ≡ initiations w.calls)
        × (p : Policy) × (stores u.calls ≡ p ∷ stores w.calls)
        × IsReported p
  unfolding resolve_latest_or_requeue resolve_latest_ami on_latest
  resolve_latest_or_requeue-IsReported c ng version w unpublished =
      let v = (set_unsupported env w).1 in
      let (_, started, stored, _) = compute_next_delay-Quiet env v in
      let (p, _, one, _, _, _, reported) = set_unsupported-IsReported w in
      rw unpublished (refl, started ∙ initiations-set_unsupported w, p, stored ∙ one, reported)
