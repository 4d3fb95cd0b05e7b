-- ===== src/Examples/Answers.antt =====
-- Tests of what is read from the answers of AWS.
use eks_ami_operator.Base.{◌≡◌, ◌↔◌, ◌≤◌, inl, refl, arith, true, false, none, ◌∷◌}
use eks_ami_operator.Go.Error.{Error, Result, ok, err, is_al2_unsupported, al2_unsupported}
use eks_ami_operator.Go.Text.{to_upper}
use eks_ami_operator.Go.Scan.{sscanf_minor}
use eks_ami_operator.World.{Config, Call}
use eks_ami_operator.Aws.{
  build_ssm_path, retry_get_parameter, new_jitter_backoff, is_unpublished, resolve_latest_ami,
  is_al2, minor_of, eks_minor,
}
use eks_ami_operator.Aws.Unsupported.{IsForeign, SaysUnsupported, resolve_latest_ami_unsupported}
use eks_ami_operator.Base.Int.{pos}
use eks_ami_operator.Go.Scan.Decimal.{decimal, emit, digit}
use eks_ami_operator.Aws.Versions.{version, IsAl2Type, eks_minor-version}
use eks_ami_operator.Aws.Paths.{
  Reads, IsPublished, parameter, arm_on_al2, resolve_latest_ami-IsPublished, resolve_latest_ami-Row,
}
use eks_ami_operator.World.{Nodegroup}
use eks_ami_operator.World.Frame.{initiations}
use eks_ami_operator.World.Stores.{stores}
use eks_ami_operator.Api.{Policy}
use mathlib.Core.List.{Memᴰ}
use eks_ami_operator.Controller.{
  resolve_latest_or_requeue, set_unsupported, compute_next_delay, requeue, return,
}
use eks_ami_operator.Controller.Unsupported.{
  IsMeta, IsReported, resolve_latest_or_requeue-IsReported,
}
use eks_ami_operator.Aws.{AwsClients}
use eks_ami_operator.Examples.{node_group, env, start, env-IsRetry}

abbrev config : Config
config = record { region = "us-east-1" }

-- The errors of the example's environment.
no_error :
    {A : Type 0} (a : A) (e : Error)
    → ◌≡◌ {A = Result A} (ok a) (err e)
    → is_al2_unsupported e ≡ false
no_error a e h = ground (arith, h)

env-IsForeign : IsForeign env
env-IsForeign = record {
  parameter = λ k c path e h. no_error _ e h;
  json = λ raw e h. no_error _ e h;
}

al2_on_133 : is_unpublished "AL2_x86_64" "1.33" ≡ true
unfolding is_al2 minor_of eks_minor to_upper sscanf_minor
al2_on_133 = refl

al2_on_132 : is_unpublished "AL2_x86_64" "1.32" ≡ false
unfolding is_al2 minor_of eks_minor to_upper sscanf_minor
al2_on_132 = refl

resolve_latest_ami_unsupported_example :
    let r = resolve_latest_ami env config "AL2_x86_64" (version 1 33 "-eks-1") start in
    (SaysUnsupported r.0 ↔ (IsAl2Type "AL2_x86_64" × (33 ≤ 33)))
    × (IsAl2Type "AL2_x86_64" × (33 ≤ 33) → r ≡ (err al2_unsupported, start))
resolve_latest_ami_unsupported_example =
    resolve_latest_ami_unsupported env env-IsRetry env-IsForeign config "AL2_x86_64" 1 33 "-eks-1"
      start (omega arith) (omega arith) refl

al2_x86 : IsAl2Type "AL2_x86_64"
unfolding to_upper
al2_x86 = inl refl

version_133 : version 1 33 "-eks-1" ≡ "1.33-eks-1"
unfolding decimal emit digit
version_133 = refl

eks_minor-version_example : eks_minor (version 1 33 "-eks-1") ≡ ok (pos 33)
eks_minor-version_example = eks_minor-version 1 33 "-eks-1" (omega arith) (omega arith) refl

al2_arm : is_al2 "AL2_ARM_64" ≡ true
unfolding is_al2 to_upper
al2_arm = refl

resolve_latest_ami-IsPublished_example :
    Reads
      (IsPublished "1.33")
      config
      start.calls
      (resolve_latest_ami env config "BOTTLEROCKET_ARM_64" "1.33" start).1.calls
resolve_latest_ami-IsPublished_example =
    resolve_latest_ami-IsPublished env env-IsRetry config "BOTTLEROCKET_ARM_64" "1.33" start

-- A group with Bottlerocket for ARM is compared with Amazon Linux 2023 for x86.
bottlerocket_reads_amazon_linux :
    (resolve_latest_ami env config "BOTTLEROCKET_ARM_64" "1.33" start).1.calls ≡ (
      Call.get_parameter config
        "/aws/service/eks/optimized-ami/1.33/amazon-linux-2023/x86_64/standard/recommended"
      ∷ start.calls)
unfolding resolve_latest_ami build_ssm_path retry_get_parameter new_jitter_backoff is_al2 minor_of
    eks_minor to_upper sscanf_minor
bottlerocket_reads_amazon_linux = refl

resolve_latest_ami-Row_example :
    Reads
      (λ path. path ≡ parameter "1.31" "/amazon-linux-2-arm64/recommended")
      config
      start.calls
      (resolve_latest_ami env config "AL2_ARM_64" "1.31" start).1.calls
resolve_latest_ami-Row_example =
    resolve_latest_ami-Row env env-IsRetry config "AL2_ARM_64" "/amazon-linux-2-arm64/recommended"
      "1.31" start arm_on_al2

-- The example's environment puts a condition before the others.
env-IsMeta : IsMeta env
env-IsMeta = record {
  sets = λ cs c. (c, Memᴰ.head refl, refl, refl, refl);
  leaves = λ cs c d here differs. Memᴰ.tail here;
}

abbrev clients : AwsClients
clients = record { eks = config; ssm = config; ec2 = config }

abbrev al2_group : Nodegroup
al2_group = record node_group { ami_type = "AL2_x86_64" }

resolve_latest_or_requeue-IsReported_example :
    let (r, u) = resolve_latest_or_requeue env clients al2_group "1.33" start in
    (r ≡ return (requeue (compute_next_delay env (set_unsupported env start).1).0) none)
    × (initiations u.calls ≡ initiations start.calls)
    × (p : Policy) × (stores u.calls ≡ p ∷ stores start.calls)
    × IsReported p
resolve_latest_or_requeue-IsReported_example =
    resolve_latest_or_requeue-IsReported env env-IsMeta clients al2_group "1.33" start al2_on_133
