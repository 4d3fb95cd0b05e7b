-- ===== src/Controller/Following.antt =====
-- How Reconcile of internal/controller/nodegroupupgradepolicy_controller.go comes to its AWS work for a
-- policy with an update in flight, and goes through the stages of that work.
use eks_ami_operator.Base.{suc, ◌≡◌, refl, true, false, String, none, ◌∷◌}
use eks_ami_operator.Base.{arith}
use eks_ami_operator.Go.Error.{ok}
use eks_ami_operator.Api.{Policy}
use eks_ami_operator.World.{Env, World, Call, M, ◌>>=◌}
use eks_ami_operator.World.Frame.{Quiet}
use eks_ami_operator.Upgrade.{is_tracked}
use eks_ami_operator.Upgrade.Process.{StartsNone}
use eks_ami_operator.Finalizer.{is_deleted, has, handle_finalizer}
use eks_ami_operator.Scheduler.{should_skip}
use eks_ami_operator.Scheduler.Guards
use eks_ami_operator.Scheduler.Guards.{IsStarted, IsCooled, cooldown_clock, Passes-of_conditions}
use eks_ami_operator.Controller.Schedule.{
  is_in_flight, handle_schedule_gate, on_skip, handle_guards,
}
use eks_ami_operator.Controller.Requeue.{OrRequeue, continue, return}
use eks_ami_operator.Controller.Reconcile.{
  Answer, proceed, ◌>>?◌, aws_work, after_gate, after_guards, after_finalizer, after_get, reconcile,
}
use eks_ami_operator.Controller.Quiet.{should_skip-Quiet}

pub flying : (p : Policy) → is_tracked p.status ≡ true → is_in_flight p ≡ true
unfolding is_in_flight
flying p tracked = ground arith

-- The update `id` is in flight.
abbrev pub Tracks : String → World → Type 0
Tracks id w = (is_tracked w.policy.status ≡ true) × (w.policy.status.update_id ≡ id)

pub Quiet-Tracks : (id : String) (w v : World) → Quiet w v → Tracks id w → Tracks id v
Quiet-Tracks id w v q t = rw q.0 t

-- What a reconcile comes to from a state on also holds from one before, if no update was started till
-- then.
abbrev pub IsLate : (World → Answer × World → Type 0) → Type 0
IsLate P = (w v : World) (r : Answer × World) → StartsNone w v → P v r → P w r

-- A stage goes on quietly, with a value for which `R` holds, or ends as `P` says.
abbrev pub Passing :
    (World → Answer × World → Type 0)
    → {A : Type 0} → (A → Type 0)
    → World
    → OrRequeue A × World
    → Type 0
Passing P R w (continue a, v) = R a × Quiet w v
Passing P R w (return res e, v) = P w ((res, e), v)

-- With the update in flight, a stage passes, and a step comes to what `P` says.
pub record Passes (P : World → Answer × World → Type 0) (id : String) {A : Type 0} (R : A → Type 0)
    (m : M (OrRequeue A)) : Type 0 where
  pub at : (w : World) → Tracks id w → Passing P R w (m w)

pub record Follows (P : World → Answer × World → Type 0) (id : String) (m : M Answer) : Type 0 where
  pub at : (w : World) → Tracks id w → P w (m w)

-- The policy that a reconcile reads has the status that was stored last, is not being deleted, has its finalizer, is not paused, has reached its start time, and
-- is on cron or out of its cooldown. The rest of it may be another than before.
pub record Watch (env : Env) (name : String) (w : World) : Type 0 where
  pub policy : Policy
  pub read : env.get w.tick name ≡ ok policy
  pub stored : policy.status ≡ w.policy.status
  pub living : is_deleted policy.deletion_timestamp ≡ false
  pub kept : has env policy ≡ true
  pub unpaused : policy.spec.paused ≡ false
  pub started : IsStarted env policy (env.now (suc w.tick))
  pub cooled : IsCooled policy (
      cooldown_clock env policy
        (record w { policy = policy; tick = suc w.tick; calls = Call.get name ∷ w.calls }))

module _ {P : World → Answer × World → Type 0} (late : IsLate P) (id : String) where
  pub >>?-Follows :
      {A : Type 0} (R : A → Type 0) (m : M (OrRequeue A)) (f : A → M Answer)
      → Passes P id R m
      → ((a : A) → R a → Follows P id (f a))
      → Follows P id (m >>? f)
  >>?-Follows {A} R m f h k = record { at = λ w t. go w t (m w).0 (m w).1 (h.at w t) }
    where
      go :
          (w : World)
          → Tracks id w
          → (r : OrRequeue A) (v : World) → Passing P R w (r, v)
          → P w (proceed f r v)
      go w t (continue a) v (holds, q) =
          late w v (f a v) q.1 ((k a holds).at v (Quiet-Tracks id w v q t))
      go w t (return res e) v ended = ended

  module _ (env : Env) (work : Follows P id (aws_work env)) where
    gate-Follows : Follows P id (handle_schedule_gate env >>= after_gate env)
    unfolding handle_schedule_gate after_gate
    gate-Follows = record { at = λ w t. rw (flying w.policy t.0) (work.at w t) }

    -- Behind the finalizer, for a policy that ShouldSkip lets through.
    guarded_follows :
        (w : World)
        → Tracks id w
        → Guards.Passes (should_skip env w.policy w).0
        → P w (after_finalizer env (false, none) w)
    unfolding after_finalizer handle_guards on_skip after_guards
    guarded_follows w t (go, fine) =
        let (_, v) = should_skip env w.policy w in
        let q = should_skip-Quiet env w in
        rw (fine, go)
          (late w v ((handle_schedule_gate env >>= after_gate env) v) q.1
            (gate-Follows.at v (Quiet-Tracks id w v q t)))

    -- A reconcile of such a policy comes to what its AWS work comes to.
    pub reconcile_follows :
        (name : String) (w : World) → Tracks id w → Watch env name w → P w (reconcile env name w)
    unfolding reconcile after_get handle_finalizer
    reconcile_follows name w (tracked, same) x =
        let p = x.policy in
        let v : World = record w {
          policy = p;
          tick = suc w.tick;
          calls = Call.get name ∷ w.calls;
        } in
        rw (x.read, x.living, x.kept)
          (late w v (after_finalizer env (false, none) v) refl (
            guarded_follows v (rw x.stored tracked, rw x.stored same)
              (Passes-of_conditions env p v (x.unpaused, x.started, x.cooled))))
