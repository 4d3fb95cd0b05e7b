-- ===== src/Controller/Preserved.antt =====
-- What holds of the object in hand and of every stored status through a reconcile of
-- internal/controller/nodegroupupgradepolicy_controller.go.
use eks_ami_operator.Base.{
  ℕ, ◌≡◌, ◌⊎◌, refl, Bool, true, false, String, ◌∷◌, Option, none, some, All, Bool-cases, inl, inr,
}
use eks_ami_operator.Go.Error.{Error, Result, ok, err}
use eks_ami_operator.Go.Time.{Time}
use eks_ami_operator.Api.{Policy, Condition, Status}
use eks_ami_operator.World.{Config, Env, IsRetry, World, ◌>>=◌}
use eks_ami_operator.World.Kube
use eks_ami_operator.World.Kube.{received}
use eks_ami_operator.World.Keeps.{Keeps, Keeps-bind}
use eks_ami_operator.World.Reads.{stores-read}
use eks_ami_operator.World.Stores.{stores, decoded}
use eks_ami_operator.Upgrade.{process_upgrade}
use eks_ami_operator.Finalizer.{
  is_deleted, has, remove_it, add_it, set_finalizers, updated, handle_finalizer,
}
use eks_ami_operator.Metrics.{inc, deleted_policies}
use eks_ami_operator.Upgrade.{labels, upgrade_status_skipped}
use eks_ami_operator.Upgrade.Lifecycle.{Seen, Checked}
use eks_ami_operator.Upgrade.Stored.{process_upgrade_stores}
use eks_ami_operator.Controller.Conditions.{set_condition}
use eks_ami_operator.Controller.Requeue.{set_unsupported}
use eks_ami_operator.Controller.Reconcile.{reconcile}
use eks_ami_operator.Controller.Rules.{Rules, reconcile-Keeps}

-- The API server answers with the stored object: a read gives a status for which `Q` holds, and a
-- write gives the status that it was sent.
pub record IsServer (env : Env) (Q : Status → Type 0) : Type 0 where
  pub get-ok : (k : ℕ) (name : String) (p : Policy) → env.get k name ≡ ok p → Q p.status
  pub update-ok : (k : ℕ) (p q : Policy) → env.update k p ≡ ok q → q.status ≡ p.status
  pub update_status-ok : (k : ℕ) (p q : Policy) → env.update_status k p ≡ ok q → q.status ≡ p.status

-- `Q` holds of the object in hand, and of every stored status.
abbrev pub Kept : (Status → Type 0) → World → Type 0
Kept Q w = Q w.policy.status × All (λ p. Q p.status) (stores w.calls)

-- The conditions of an AL2 group without an image.
abbrev pub IsUnsupported : Condition → Type 0
IsUnsupported c =
    ((c.condition_type ≡ "AMICompliance") ⊎ (c.condition_type ≡ "UpgradeInProgress"))
    × (c.status ≡ "False")
    × (c.reason ≡ "UnsupportedAMI")

-- What `Q` has to allow: the assignments to the status, each as a whole.
pub record Allows (env : Env) (Q : Status → Type 0) : Type 0 where
  pub scheduled :
      (s : Status) (last next : Time)
      → Q s
      → Q (record s { last_scheduled_time = last; next_scheduled_time = next })
  pub unsupported :
      (s : Status) (c d : Condition)
      → IsUnsupported c
      → IsUnsupported d
      → Q s
      → Q (record s {
        upgrade_status = upgrade_status_skipped;
        conditions = env.set_status_condition (env.set_status_condition s.conditions c) d;
      })
  pub moved :
      (seen : Seen) (old : Policy) (at : Time) (current latest : String) (new : Policy)
      → Checked seen old at current latest new
      → Q old.status
      → Q new.status

module _ (Q : Status → Type 0) where
  received-Kept :
      (r : Result Policy) (w : World)
      → ((q : Policy) → r ≡ ok q → Q q.status)
      → Kept Q w
      → Kept Q (received r w).1
  received-Kept (ok q) w h (here, stored) = (h q refl, stored)
  received-Kept (err e) w h inv = inv

  decoded-same :
      (p : Policy) (r : Result Policy)
      → ((q : Policy) → r ≡ ok q → q.status ≡ p.status)
      → Q p.status
      → Q (decoded p r).status
  decoded-same p (ok q) h k = rw (h q refl) k
  decoded-same p (err e) h k = k

  updated-Keeps : (after : Bool) (e : Option Error) → Keeps (Kept Q) (updated after e)
  updated-Keeps after none = record { at = λ w h. h }
  updated-Keeps after (some e) = record { at = λ w h. h }

  module _ (env : Env) (server : IsServer env Q) where
    get-Keeps : (name : String) → Keeps (Kept Q) (Kube.get env name)
    get-Keeps name = record {
      at =
          λ w inv. received-Kept (env.get w.tick name) _ (λ q e. server.get-ok w.tick name q e) inv;
    }

    update-Keeps : Keeps (Kept Q) (Kube.update env)
    update-Keeps = record {
      at = λ w inv.
          received-Kept (env.update w.tick w.policy) _
            (λ q e. rw (server.update-ok w.tick w.policy q e) inv.0) inv;
    }

    pub update_status-Keeps : Keeps (Kept Q) (Kube.update_status env)
    update_status-Keeps = record {
      at = λ w inv.
          received-Kept (env.update_status w.tick w.policy) _
            (λ q e. rw (server.update_status-ok w.tick w.policy q e) inv.0) (inv.0, (inv.0, inv.1));
    }

    -- A write of the object with other finalizers.
    write-Keeps :
        (after : Bool) (f : Policy → Policy)
        → ((p : Policy) → (f p).status ≡ p.status)
        → Keeps (Kept Q) (set_finalizers f >>= λ _. Kube.update env >>= updated after)
    write-Keeps after f same = record {
      at = λ w inv.
          (Keeps-bind update-Keeps (updated-Keeps after)).at (record w { policy = f w.policy })
            (rw (same w.policy) inv.0, inv.1);
    }

    finalizer-Keeps : Keeps (Kept Q) (handle_finalizer env)
    unfolding handle_finalizer
    finalizer-Keeps = record {
      at = λ w inv.
          let p = w.policy in
          elim (Bool-cases (is_deleted p.deletion_timestamp)) [
            | inl deleted ↦ rw deleted (elim (Bool-cases (has env p)) [
              | inl kept ↦ rw kept (
                  (write-Keeps true (remove_it env) (λ q. refl)).at
                    (record w { metrics = inc deleted_policies (labels p) ∷ w.metrics }) inv)
              | inr cleaned ↦ rw cleaned inv
            ])
            | inr living ↦ rw living (elim (Bool-cases (has env p)) [
              | inl kept ↦ rw kept inv
              | inr new ↦ rw new ((write-Keeps false (add_it env) (λ q. refl)).at w inv)
            ])
          ];
    }

    module _ (allows : Allows env Q) where
      upgrade-Keeps :
          (current latest : String) (eks : Config)
          → Keeps (Kept Q) (process_upgrade env current latest eks)
      upgrade-Keeps current latest eks = record {
        at = λ w inv.
            let (p, k, one, _, _, answer, new) = process_upgrade_stores env current latest eks w in
            let here = allows.moved _ _ _ _ _ p new inv.0 in
            let same = decoded-same p (env.update_status k p) (server.update_status-ok k p) here in
            (rw answer same, rw one (here, inv.1));
      }

      unsupported-Keeps : Keeps (Kept Q) (set_unsupported env)
      unfolding set_unsupported set_condition
      unsupported-Keeps = record {
        at = λ w inv. update_status-Keeps.at _ (
          allows.unsupported w.policy.status _ _ (inr refl, refl, refl) (inl refl, refl, refl)
              inv.0,
          inv.1,
        );
      }

      Kept-Rules : Rules env (Kept Q)
      Kept-Rules = record {
        steps = record {
          reads = record {
            ticked = λ w inv. inv;
            asked = λ c w is_read inv. (inv.0, rw (stores-read c w.calls is_read) inv.1);
            shown = λ cluster ng x w inv. inv;
          };
          scheduled = λ last next. record {
            at = λ w inv. (allows.scheduled w.policy.status last next inv.0, inv.1);
          };
          persisted = update_status-Keeps;
        };
        finalized = finalizer-Keeps;
        unsupported = unsupported-Keeps;
        reset = λ cluster. record { at = λ w inv. inv };
        upgraded = upgrade-Keeps;
      }

      -- With a backoff.Retry that runs as documented and an API server that holds the status, a
      -- reconcile keeps what allows its assignments, for the object in hand and for every stored
      -- status.
      pub reconcile_keeps :
          IsRetry env → (name : String) (w : World) → Kept Q w → Kept Q (reconcile env name w).1
      reconcile_keeps documented name =
          (reconcile-Keeps env documented Kept-Rules name (get-Keeps name)).at
