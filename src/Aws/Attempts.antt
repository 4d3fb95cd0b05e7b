-- ===== src/Aws/Attempts.antt =====
-- What a run of backoff.Retry gives for the operations of internal/awsutils/aws_helpers.go.
use eks_ami_operator.Base.{
  ℕ, suc, ◌≡◌, refl, ap, ◌∙◌, Bool, true, String, ◌∷◌, Option, none, some, arith, Bool-cases, inl,
  inr, ◌⊎◌,
}
use eks_ami_operator.Go.Error.{Error, Result, ok, err, api_code, plain}
use eks_ami_operator.World.{
  Config, Call, Env, IsRetry, World, M, Attempt, permanent, transient, Runs, success, failure, stop,
  again,
}
use eks_ami_operator.World.{ExponentialBackOff}
use eks_ami_operator.World.Kube.{called}
use eks_ami_operator.Aws.Retry.{
  attempt, has_code, outcome, is_permanent_nodegroup, is_permanent_parameter, nodegroup_operation,
  parameter_operation, new_jitter_backoff, retry_get_parameter, retry_describe_nodegroup,
}

-- An operation that fails for good is not called again.
pub Runs-permanent :
    {A : Type 0} {op : M (A × Attempt)} {w w' : World} {a : A} {e : Error}
    {r : (A × Option Error) × World}
    → op w ≡ ((a, permanent e), w')
    → Runs op w r
    → r ≡ ((a, some e), w')
Runs-permanent h (success k) = ground (arith, h, k)
Runs-permanent h (failure k) = ground (arith, h, k)
Runs-permanent h (stop k) = ground (arith, h, k)
Runs-permanent h (again k _) = ground (arith, h, k)

-- The error of a run is the error of one of its calls.
pub Runs-error :
    {A : Type 0} {op : M (A × Attempt)} {w : World} {r : (A × Option Error) × World}
    (P : Error → Type 0)
    → ((v : World) (e : Error) → ((op v).0.1 ≡ permanent e) ⊎ ((op v).0.1 ≡ transient e) → P e)
    → Runs op w r
    → (e : Error) → r.0.1 ≡ some e
    → P e
Runs-error P h (success k) e q = ground (arith, q)
Runs-error {w = w} P h (failure k) e q = h w e (inl (ground (arith, k, q)))
Runs-error {w = w} P h (stop k) e q = h w e (inr (ground (arith, k, q)))
Runs-error P h (again k rest) e q = Runs-error P h rest e q

outcome-error :
    {A : Type 0} (x : Option A × Option Error) (e : Error)
    → outcome x ≡ err e
    → (x.1 ≡ some e) ⊎ (plain "nil output" ≡ e)
outcome-error (none, some d) e h = inl (ground (arith, h))
outcome-error (some a, some d) e h = inl (ground (arith, h))
outcome-error (some a, none) e h = absurd (ground (arith, h))
outcome-error (none, none) e h = inr (ground (arith, h))

attempt-error :
    {A : Type 0} (test : String → Bool) (r : Result A) (e : Error)
    → ((attempt test r).1 ≡ permanent e) ⊎ ((attempt test r).1 ≡ transient e)
    → r ≡ err e
attempt-error test (ok a) e h = ground (arith, h)
attempt-error test (err d) e h = elim (Bool-cases (has_code (api_code d) test)) [
  | inl for_good ↦ ground (arith, h, for_good)
  | inr again' ↦ ground (arith, h, again')
]

module _ (env : Env) (documented : IsRetry env) where
  attempt-permanent :
      {A : Type 0} (test : String → Bool) (code : String)
      → test code ≡ true
      → attempt {A = A} test (err (Error.api code)) ≡ (none, permanent (Error.api code))
  attempt-permanent test code h = rw h

  retry_once :
      {A : Type 0} (b : ExponentialBackOff) (op : M (A × Attempt)) (v v' : World) (a : A)
      (e : Error)
      → op v ≡ ((a, permanent e), v')
      → env.retry A b op v ≡ ((a, some e), v')
  retry_once b op v v' a e h = Runs-permanent h (documented.runs _ b op v)

  -- With a backoff.Retry that runs as documented, a node group that EKS does not know, or a request
  -- that it does not accept, is reported after one call of DescribeNodegroup.
  pub retry_describe_nodegroup_permanent :
      (c : Config) (cluster ng code : String) (w : World)
      → is_permanent_nodegroup code ≡ true
      → env.describe_nodegroup (suc w.tick) c cluster ng ≡ err (Error.api code)
      → let (r, u) = retry_describe_nodegroup env c cluster ng w in
        (r ≡ err (Error.api code))
        × (u.calls ≡ Call.describe_nodegroup c cluster ng ∷ w.calls)
        × (u.policy ≡ w.policy)
  unfolding retry_describe_nodegroup new_jitter_backoff
  retry_describe_nodegroup_permanent c cluster ng code w for_good answer =
      let v : World = record w { tick = suc w.tick } in
      let v' = called (Call.describe_nodegroup c cluster ng) v in
      let h : nodegroup_operation env c cluster ng v ≡ ((none, permanent (Error.api code)), v') =
        ap (λ r. (attempt is_permanent_nodegroup r, v')) answer
        ∙ ap (λ a. (a, v')) (attempt-permanent is_permanent_nodegroup code for_good) in
      rw (retry_once _ (nodegroup_operation env c cluster ng) v v' none (Error.api code) h)
        (refl, refl, refl)

  -- The same for a parameter that is not there.
  retry_get_parameter_permanent :
      (c : Config) (path code : String) (w : World)
      → is_permanent_parameter code ≡ true
      → env.get_parameter (suc w.tick) c path ≡ err (Error.api code)
      → let (r, u) = retry_get_parameter env c path w in
        (r ≡ err (Error.api code)) × (u.calls ≡ Call.get_parameter c path ∷ w.calls)
  unfolding retry_get_parameter new_jitter_backoff
  retry_get_parameter_permanent c path code w for_good answer =
      let v : World = record w { tick = suc w.tick } in
      let v' = called (Call.get_parameter c path) v in
      let h : parameter_operation env c path v ≡ ((none, permanent (Error.api code)), v') =
        ap (λ r. (attempt is_permanent_parameter r, v')) answer
        ∙ ap (λ a. (a, v')) (attempt-permanent is_permanent_parameter code for_good) in
      rw (retry_once _ (parameter_operation env c path) v v' none (Error.api code) h) (refl, refl)

  -- The errors of GetParameter, and what the retry makes of them.
  pub get_parameter_error :
      (P : Error → Type 0)
      → ((k : ℕ) (c : Config) (path : String) (e : Error)
          → env.get_parameter k c path ≡ err e
          → P e)
      → P (plain "nil output")
      → (c : Config) (path : String) (w : World) (e : Error)
      → (retry_get_parameter env c path w).0 ≡ err e
      → P e
  unfolding retry_get_parameter new_jitter_backoff
  get_parameter_error P sdk nil c path w e h = elim (outcome-error _ e h) [
    | inl failed ↦
        Runs-error P (λ v d k. sdk v.tick c path d (attempt-error is_permanent_parameter _ d k))
          (documented.runs _ _ (parameter_operation env c path) _) e failed
    | inr same ↦ rw⁻¹ same nil
  ]
