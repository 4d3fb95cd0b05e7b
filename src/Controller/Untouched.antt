-- ===== src/Controller/Untouched.antt =====
-- What Reconcile of internal/controller/nodegroupupgradepolicy_controller.go sends to the API server.
use eks_ami_operator.Base.{ℕ, ◌≡◌, refl, ◌∙◌, String, [], ◌∷◌, All, true, false, none, suc}
use eks_ami_operator.Go.Error.{Result, ok, err}
use eks_ami_operator.Api.{Policy}
use eks_ami_operator.World.{Call, Env, IsRetry, World}
use eks_ami_operator.World.Kube.{received}
use eks_ami_operator.World.Reads.{is_read}
use eks_ami_operator.World.Free.{Free}
use eks_ami_operator.Controller.Reconcile.{reconcile}
use eks_ami_operator.Controller.Rules.{Rules, after_get-Keeps}
use eks_ami_operator.Controller.Freed.{Free-Rules}

-- The two policies ask for the same, under the same name.
abbrev pub SameRequest : Policy → Policy → Type 0
SameRequest p q = (q.name ≡ p.name) × (q.spec ≡ p.spec)

-- The API server answers a write with the object that it was sent.
pub record Echoes (env : Env) : Type 0 where
  pub update-same : (k : ℕ) (p q : Policy) → env.update k p ≡ ok q → SameRequest p q
  pub update_status-same : (k : ℕ) (p q : Policy) → env.update_status k p ≡ ok q → SameRequest p q

-- A call sends the policy as it was read, if it sends one.
abbrev pub IsOwn : Policy → Call → Type 0
IsOwn p (Call.update q) = SameRequest p q
IsOwn p (Call.update_status q) = SameRequest p q
IsOwn p _ = Unit {0}

abbrev Own : Policy → World → Type 0
Own p w = SameRequest p w.policy × All (IsOwn p) w.calls

IsOwn-read : (p : Policy) (c : Call) → is_read c ≡ true → IsOwn p c
IsOwn-read p (Call.load_default_config _) h = tt
IsOwn-read p (Call.describe_nodegroup _ _ _) h = tt
IsOwn-read p (Call.describe_cluster _ _) h = tt
IsOwn-read p (Call.get_parameter _ _) h = tt
IsOwn-read p (Call.describe_update _ _ _ _) h = tt
IsOwn-read p (Call.describe_regions _) h = tt
IsOwn-read p (Call.get _) h = tt
IsOwn-read p (Call.update q) h = cc
IsOwn-read p (Call.update_status q) h = cc
IsOwn-read p (Call.update_nodegroup_version _ _ _ _) h = tt

received-Own :
    (p sent : Policy) (r : Result Policy) (w : World)
    → ((q : Policy) → r ≡ ok q → SameRequest sent q)
    → SameRequest p sent
    → Own p w
    → Own p (received r w).1
received-Own p sent (ok q) w h same inv =
    let (name, spec) = h q refl in ((name ∙ same.0, spec ∙ same.1), inv.1)
received-Own p sent (err e) w h same inv = inv

module _ (env : Env) (echoes : Echoes env) (p : Policy) where
  Own-Free : Free false env (Own p)
  Own-Free = record {
    reads = record {
      ticked = λ w h. h;
      asked = λ c w read h. (h.0, (IsOwn-read p c read, h.1));
      shown = λ cluster ng x w h. h;
    };
    made = λ x w made h. h;
    assigned = λ f. record { at = λ w h. h };
    persisted = record {
      at = λ w h.
          received-Own p w.policy (env.update_status w.tick w.policy) _
            (λ q e. echoes.update_status-same w.tick w.policy q e) h.0 (h.0, (h.0, h.1));
    };
    started = λ c cluster ng release. record { at = λ w h. (h.0, (tt, h.1)) };
  }

  Own-Rules : Rules env (Own p)
  Own-Rules = Free-Rules env Own-Free (record {
    sent = record {
      at = λ w h.
          received-Own p w.policy (env.update w.tick w.policy) _
            (λ q e. echoes.update-same w.tick w.policy q e) h.0 (h.0, (h.0, h.1));
    };
    finalizers = λ fs w h. h;
  })

-- The operator never changes what a user asks for: in a reconcile that reads a policy, with no call on
-- record before it, every write of the object and of its status sends the name and the specification
-- that were read, if backoff.Retry runs as documented and the API server answers a write with what it
-- was sent.
pub reconcile_untouched :
    (env : Env)
    → IsRetry env
    → Echoes env
    → (name : String) (w : World) (p : Policy) → env.get w.tick name ≡ ok p
    → w.calls ≡ []
    → All (IsOwn p) (reconcile env name w).1.calls
unfolding reconcile
reconcile_untouched env documented echoes name w p read first =
    let v : World = record w { policy = p; tick = suc w.tick; calls = Call.get name ∷ w.calls } in
    rw read
      ((after_get-Keeps env documented (Own-Rules env echoes p) none).at v
        ((refl, refl), (tt, rw first tt))).1
