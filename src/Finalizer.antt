-- ===== src/Finalizer.antt =====
-- internal/finalizer/finalizer.go.
pub mod Cleanup
use eks_ami_operator.Base.{Bool, true, false, String, [], ◌∷◌, Option, none, some, if◌then◌else◌}
use eks_ami_operator.Base.Int.{eqb_ℤ}
use eks_ami_operator.Go.Time.{Time, is_zero}
use eks_ami_operator.Go.Error.{Error}
use eks_ami_operator.Api.{Policy}
use eks_ami_operator.Metrics.{deleted_policies}
use eks_ami_operator.World.{Env, M, World, ◌>>=◌, ◌>>◌, pure, policy, inc_counter}
use eks_ami_operator.World.Kube

-- NodeGroupFinalizer
abbrev pub node_group_finalizer : String
node_group_finalizer = "nodegroupupgradepolicy.eks.aws.harsh.dev/finalizer"

-- !policy.DeletionTimestamp.IsZero(), on a pointer that may be nil
abbrev pub is_deleted : Option Time → Bool
is_deleted none = false
is_deleted (some t) = if is_zero t then false else true

abbrev pub set_finalizers : (Policy → Policy) → M (Unit {0})
set_finalizers f w = (tt, record w { policy = f w.policy })

-- `if err := c.Update(ctx, policy); err != nil { return true, err }`, then `return after, nil`
abbrev pub updated : Bool → Option Error → M (Bool × Option Error)
updated after none = pure (after, none)
updated after (some e) = pure (true, some e)

module _ (env : Env) where
  abbrev pub has : Policy → Bool
  has p = env.contains_finalizer p.finalizers node_group_finalizer

  abbrev pub remove_it : Policy → Policy
  remove_it p = record p { finalizers = env.remove_finalizer p.finalizers node_group_finalizer }

  abbrev pub add_it : Policy → Policy
  add_it p = record p { finalizers = env.add_finalizer p.finalizers node_group_finalizer }

  -- HandleFinalizer
  unfoldable pub handle_finalizer : M (Bool × Option Error)
  handle_finalizer = do
    p ← policy
    (if is_deleted p.deletion_timestamp
        then (if has p
            then (do
              inc_counter deleted_policies (p.spec.cluster_name ∷ p.spec.node_group_name ∷ [])
              set_finalizers remove_it
              e ← Kube.update env
              updated true e)
            else pure (true, none))
        else (if has p
            then pure (false, none)
            else (do set_finalizers add_it; e ← Kube.update env; updated false e)))
