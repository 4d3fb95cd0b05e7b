-- ===== src/Aws/Retry.antt =====
-- The retry helpers of internal/awsutils/aws_helpers.go, and DescribeNodegroup and DescribeCluster.
use eks_ami_operator.Base.{
  ◌*◌, Bool, false, ◌||◌, String, str_eq, Option, none, some, if◌then◌else◌,
}
use eks_ami_operator.Base.Int.{pos, ◌+ℤ◌}
use eks_ami_operator.Go.Time.{Duration, second}
use eks_ami_operator.Go.Text.{trim_prefix}
use eks_ami_operator.Go.Error.{Error, Result, ok, err, api_code, plain}
use eks_ami_operator.World.{
  Config, Env, M, ◌>>=◌, pure, Nodegroup, ExponentialBackOff, Attempt, succeeded, permanent,
  transient,
}
use eks_ami_operator.World.Clock.{intn}
use eks_ami_operator.World.Sdk

-- newJitterBackoff; the sum is far below the bound of an int64.
unfoldable pub new_jitter_backoff : Env → Duration → Duration → M ExponentialBackOff
new_jitter_backoff env initial max_elapsed = do
  n ← intn env 500
  pure
      (record { initial_interval = initial +ℤ pos (n * 1_000_000); max_elapsed_time = max_elapsed })

abbrev pub has_code : Option String → (String → Bool) → Bool
has_code none test = false
has_code (some c) test = test c

-- The cases of the two switches on apiErr.ErrorCode().
abbrev pub is_permanent_nodegroup : String → Bool
is_permanent_nodegroup c =
    str_eq c "ResourceNotFoundException" || str_eq c "InvalidParameterException"

abbrev pub is_permanent_parameter : String → Bool
is_permanent_parameter c = str_eq c "ParameterNotFound" || str_eq c "InvalidParameter"

-- What the operation assigns to `output`, and what it gives to backoff.Retry.
abbrev pub attempt {ℓ} : {A : Type ℓ} → (String → Bool) → Result A → Option A × Attempt
attempt test (ok a) = (some a, succeeded)
attempt test (err e) = (none, if has_code (api_code e) test then permanent e else transient e)

-- `return output, err`
abbrev pub outcome {ℓ} : {A : Type ℓ} → Option A × Option Error → Result A
outcome (_, some e) = err e
outcome (some a, none) = ok a
outcome (none, none) = err (plain "nil output")

module _ (env : Env) where
  abbrev pub nodegroup_operation : Config → String → String → M (Option Nodegroup × Attempt)
  nodegroup_operation c cluster ng = do
    r ← Sdk.describe_nodegroup env c cluster ng
    pure (attempt is_permanent_nodegroup r)

  -- retryDescribeNodegroup
  unfoldable pub retry_describe_nodegroup : Config → String → String → M (Result Nodegroup)
  retry_describe_nodegroup c cluster ng = do
    b ← new_jitter_backoff env (pos (2 * second)) (pos (30 * second))
    r ← env.retry (Option Nodegroup) b (nodegroup_operation c cluster ng)
    pure (outcome r)

  abbrev pub parameter_operation : Config → String → M (Option (Option String) × Attempt)
  parameter_operation c path = do
    r ← Sdk.get_parameter env c path
    pure (attempt is_permanent_parameter r)

  -- retryGetParameter
  unfoldable pub retry_get_parameter : Config → String → M (Result (Option String))
  retry_get_parameter c path = do
    b ← new_jitter_backoff env (pos (2 * second)) (pos (30 * second))
    r ← env.retry (Option (Option String)) b (parameter_operation c path)
    pure (outcome r)

  -- DescribeNodegroup
  abbrev pub describe_nodegroup : Config → String → String → M (Result Nodegroup)
  describe_nodegroup c cluster ng = retry_describe_nodegroup c cluster ng

  abbrev version : Result (Option String) → Result String
  version (ok v) = ok (trim_prefix (env.to_string v) "v")
  version (err e) = err e

  -- DescribeCluster
  unfoldable pub describe_cluster : Config → String → M (Result String)
  describe_cluster c cluster = do r ← Sdk.describe_cluster env c cluster; pure (version r)
