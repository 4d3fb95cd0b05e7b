-- ===== src/Aws/Answered.antt =====
-- When the retried calls of internal/awsutils/aws_helpers.go, and ResolveLatestAMI, have a result.
use eks_ami_operator.Base.{
  ℕ, ◌≡◌, refl, ap, ◌∙◌, Bool, true, false, String, Option, none, some, arith,
}
use eks_ami_operator.Go.Error.{Error, Result, ok, err}
use eks_ami_operator.World.{
  Config, Env, IsRetry, World, M, Nodegroup, Attempt, succeeded, Runs, success, failure, stop,
  again,
}
use eks_ami_operator.Aws.Retry.{
  attempt, outcome, is_permanent_nodegroup, is_permanent_parameter, nodegroup_operation,
  parameter_operation, new_jitter_backoff, retry_get_parameter, retry_describe_nodegroup,
}
use eks_ami_operator.Aws.Ami.{
  is_al2, minor_of, build_ssm_path, recommended, look_up, resolve_latest_ami,
}

-- The result of a run without an error is the result of one of its calls.
Runs-ok :
    {A : Type 0} {op : M (A × Attempt)} {w : World} {r : (A × Option Error) × World}
    → Runs op w r
    → r.0.1 ≡ none
    → (v : World) × ((op v).0 ≡ (r.0.0, succeeded))
Runs-ok {w = w} (success e) h = (w, ap (λ x. x.0) e)
Runs-ok (failure e) h = absurd (ground (arith, h))
Runs-ok (stop e) h = absurd (ground (arith, h))
Runs-ok (again e rest) h = Runs-ok rest h

-- A run of an operation that always succeeds.
Runs-total :
    {A : Type 0} {op : M (Option A × Attempt)} {w : World} {r : (Option A × Option Error) × World}
    → ((v : World) → (a : A) × ((op v).0 ≡ (some a, succeeded)))
    → Runs op w r
    → (a : A) × (r.0 ≡ (some a, none))
Runs-total {w = w} h (success e) = let (a, q) = h w in (a, ground (arith, e, q))
Runs-total {w = w} h (failure e) = let (a, q) = h w in absurd (ground (arith, e, q))
Runs-total {w = w} h (stop e) = let (a, q) = h w in absurd (ground (arith, e, q))
Runs-total h (again e rest) = Runs-total h rest

outcome-ok :
    {A : Type 0} (x : Option A × Option Error) (a : A) → outcome x ≡ ok a → x ≡ (some a, none)
outcome-ok (none, some d) a h = absurd (ground (arith, h))
outcome-ok (some b, some d) a h = absurd (ground (arith, h))
outcome-ok (some b, none) a h = ground (arith, h)
outcome-ok (none, none) a h = absurd (ground (arith, h))

attempt-ok :
    {A : Type 0} (test : String → Bool) (r : Result A) (a : A)
    → attempt test r ≡ (some a, succeeded)
    → r ≡ ok a
attempt-ok test (ok b) a h = ground (arith, h)
attempt-ok test (err e) a h = absurd (ground (arith, h))

module _ (env : Env) (documented : IsRetry env) where
  -- A node group that DescribeNodegroup returns is one that EKS has answered.
  pub nodegroup_answered :
      (c : Config) (cluster name : String) (w : World) (ng : Nodegroup)
      → (retry_describe_nodegroup env c cluster name w).0 ≡ ok ng
      → (k : ℕ) × (env.describe_nodegroup k c cluster name ≡ ok ng)
  unfolding retry_describe_nodegroup new_jitter_backoff
  nodegroup_answered c cluster name w ng h =
      let x = outcome-ok _ ng h in
      let (v, e) =
        Runs-ok (documented.runs _ _ (nodegroup_operation env c cluster name) _)
          (ap (λ y. y.1) x) in
      (v.tick, attempt-ok is_permanent_nodegroup _ ng (e ∙ ap (λ y. (y.0, succeeded)) x))

-- SSM answers every read of a parameter, with a text that can be decoded.
pub record AnswersSsm (env : Env) : Type 0 where
  pub parameter :
      (k : ℕ) (c : Config) (path : String)
      → (x : Option String) × (env.get_parameter k c path ≡ ok x)
  pub release : (raw : String) → (r : String × String) × (env.unmarshal_ami raw ≡ ok r)

module _ (env : Env) (documented : IsRetry env) (ssm : AnswersSsm env) where
  parameter_answered :
      (c : Config) (path : String) (w : World)
      → (x : Option String) × ((retry_get_parameter env c path w).0 ≡ ok x)
  unfolding retry_get_parameter new_jitter_backoff
  parameter_answered c path w =
      let (x, e) =
        Runs-total
          (λ v.
            let (x, e) = ssm.parameter v.tick c path in (x, ap (attempt is_permanent_parameter) e))
          (documented.runs _ _ (parameter_operation env c path) _) in
      (x, ap outcome e)

  look_up_answered :
      (c : Config) (ami_type version : String) (path : String × Bool) (w : World)
      → (r : String × String) × ((look_up env c ami_type version path w).0 ≡ ok r)
  look_up_answered c ami_type version (path, true) w = (("", ""), refl)
  look_up_answered c ami_type version (path, false) w =
      let (x, e) = parameter_answered c path w in
      let (r, q) = ssm.release (env.to_string x) in (r, ap (recommended env ami_type version) e ∙ q)

  -- For a type that is not AL2, ResolveLatestAMI has a result if SSM answers.
  pub latest_answered :
      (c : Config) (ami_type version : String) (w : World)
      → is_al2 ami_type ≡ false
      → (r : String × String) × ((resolve_latest_ami env c ami_type version w).0 ≡ ok r)
  unfolding resolve_latest_ami
  latest_answered c ami_type version w modern =
      rw modern
        (look_up_answered c ami_type version (build_ssm_path ami_type version (minor_of version)) w)

-- EKS answers every read of a node group.
pub record AnswersEks (env : Env) : Type 0 where
  pub nodegroup :
      (k : ℕ) (c : Config) (cluster name : String)
      → (ng : Nodegroup) × (env.describe_nodegroup k c cluster name ≡ ok ng)

-- DescribeNodegroup has a result if EKS answers.
pub nodegroup_total :
    (env : Env)
    → IsRetry env
    → AnswersEks env
    → (c : Config) (cluster name : String) (w : World)
    → (ng : Nodegroup) × ((retry_describe_nodegroup env c cluster name w).0 ≡ ok ng)
unfolding retry_describe_nodegroup new_jitter_backoff
nodegroup_total env documented eks c cluster name w =
    let (ng, e) =
      Runs-total
        (λ v.
          let (ng, e) = eks.nodegroup v.tick c cluster name in
          (ng, ap (attempt is_permanent_nodegroup) e))
        (documented.runs _ _ (nodegroup_operation env c cluster name) _) in
    (ng, ap outcome e)
