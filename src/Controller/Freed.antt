-- ===== src/Controller/Freed.antt =====
-- A reconcile of internal/controller/nodegroupupgradepolicy_controller.go keeps every predicate that is
-- free of the status and of the finalizers, and allows the writes.
use eks_ami_operator.Base.{refl, String, List, Bool, false, Option, none, some}
use eks_ami_operator.Go.Error.{Error}
use eks_ami_operator.World.{Env, World}
use eks_ami_operator.World.Kube
use eks_ami_operator.World.Keeps.{Keeps, Keeps-pure}
use eks_ami_operator.World.Free.{Free, free, set_gauge-Keeps}
use eks_ami_operator.Metrics.{number, outdated_node_groups}
use eks_ami_operator.Finalizer.{set_finalizers, add_it, remove_it, updated, handle_finalizer}
use eks_ami_operator.Upgrade.Kept.{process_upgrade-Keeps}
use eks_ami_operator.Controller.Conditions.{set_condition}
use eks_ami_operator.Controller.Requeue.{set_unsupported}
use eks_ami_operator.Controller.Rules.{Steps, Rules}

module _ {others : Bool} {P : World → Type 0} (env : Env) (r : Free others env P) where
  pub unsupported-Keeps : Keeps P (set_unsupported env)
  unfolding set_unsupported set_condition
  unsupported-Keeps = search free depth 14

  pub Free-Steps : Steps env P
  Free-Steps = record {
    reads = r.reads;
    scheduled = λ last next. r.assigned _;
    persisted = r.persisted;
  }

-- The writes of the object, and its finalizers.
pub record Objects (env : Env) (P : World → Type 0) : Type 0 where
  pub sent : Keeps P (Kube.update env)
  pub finalizers :
      (fs : List String) (w : World)
      → P w
      → P (record w { policy = record (w.policy) { finalizers = fs } })

module _ {P : World → Type 0} (env : Env) (r : Free false env P) (o : Objects env P) where
  updated-Keeps : (after : Bool) (e : Option Error) → Keeps P (updated after e)
  updated-Keeps after none = Keeps-pure _
  updated-Keeps after (some e) = Keeps-pure _

  update-Keeps : Keeps P (Kube.update env)
  update-Keeps = o.sent

  add-Keeps : Keeps P (set_finalizers (add_it env))
  add-Keeps = record { at = λ w h. o.finalizers _ w h }

  remove-Keeps : Keeps P (set_finalizers (remove_it env))
  remove-Keeps = record { at = λ w h. o.finalizers _ w h }

  finalizer-Keeps : Keeps P (handle_finalizer env)
  unfolding handle_finalizer
  finalizer-Keeps = search (free, updated-Keeps, update-Keeps, add-Keeps, remove-Keeps) depth 9

  pub Free-Rules : Rules env P
  Free-Rules = record {
    steps = Free-Steps env r;
    finalized = finalizer-Keeps;
    unsupported = unsupported-Keeps env r;
    reset = λ cluster. set_gauge-Keeps env r outdated_node_groups _ (number 0) refl;
    upgraded = process_upgrade-Keeps env r;
  }
