-- ===== src/Finalizer/Cleanup.antt =====
-- The branches of HandleFinalizer in internal/finalizer/finalizer.go.
use eks_ami_operator.Base.{◌≡◌, arith, false}
use eks_ami_operator.World.{Env, World}
use eks_ami_operator.Finalizer.{is_deleted, handle_finalizer}

module _ (env : Env) (w : World) where
  -- Only a policy that is not being deleted is reconciled further.
  pub not_deleted_of_going_on :
      (handle_finalizer env w).0.0 ≡ false → is_deleted w.policy.deletion_timestamp ≡ false
  unfolding handle_finalizer
  not_deleted_of_going_on h = ground arith
