-- ===== src/Aws/Ami.antt =====
-- The latest AMI of a node group: ResolveLatestAMI of internal/awsutils/aws_helpers.go.
use eks_ami_operator.Base.{
  Bool, true, false, ◌&&◌, ◌||◌, String, str_eq, Option, none, some, if◌then◌else◌,
}
use eks_ami_operator.Base.Int.{ℤ, pos, leb_ℤ}
use eks_ami_operator.Go.Text.{◌<>◌, to_upper}
use eks_ami_operator.Go.Error.{Error, Result, ok, err, al2_unsupported, api_code}
use eks_ami_operator.World.{Config, Env, M, ◌>>=◌, pure}
use eks_ami_operator.Aws.Version.{eks_minor}
use eks_ami_operator.Aws.Retry.{retry_get_parameter}

-- AL2UnsupportedMinorCutoff
abbrev pub al2_unsupported_minor_cutoff : ℤ
al2_unsupported_minor_cutoff = pos 33

-- isAL2
unfoldable pub is_al2 : String → Bool
is_al2 ami_type = let v = to_upper ami_type in str_eq v "AL2_X86_64" || str_eq v "AL2_ARM_64"

-- fmt.Sprintf of the paths
abbrev pub optimized_ami : String → String → String
optimized_ami version rest = "/aws/service/eks/optimized-ami/" <> version <> rest

abbrev pub al2_path : String → String
al2_path v = optimized_ami v "/amazon-linux-2/recommended"

abbrev pub al2_arm_path : String → String
al2_arm_path v = optimized_ami v "/amazon-linux-2-arm64/recommended"

abbrev pub al2023_path : String → String
al2023_path v = optimized_ami v "/amazon-linux-2023/x86_64/standard/recommended"

abbrev pub al2023_arm_path : String → String
al2023_arm_path v = optimized_ami v "/amazon-linux-2023/arm64/standard/recommended"

-- buildSSMPath: the path, and whether the AMI is custom.
unfoldable pub build_ssm_path : String → String → ℤ → String × Bool
build_ssm_path ami_type eks_version minor =
    let v = to_upper ami_type in
    if str_eq v "AL2_X86_64"
    then (al2_path eks_version, false)
    else if str_eq v "AL2_ARM_64"
    then (al2_arm_path eks_version, false)
    else if str_eq v "AL2023_X86_64_STANDARD"
    then (al2023_path eks_version, false)
    else if str_eq v "AL2023_ARM_64_STANDARD"
    then (al2023_arm_path eks_version, false)
    else if str_eq v "CUSTOM"
    then ("", true)
    else if leb_ℤ al2_unsupported_minor_cutoff minor
    then (al2023_path eks_version, false)
    else (al2_path eks_version, false)

-- `minor, _ := eksMinor(eksVersion)`
abbrev minor_or_zero : Result ℤ → ℤ
minor_or_zero (ok m) = m
minor_or_zero (err _) = pos 0

unfoldable pub minor_of : String → ℤ
minor_of version = minor_or_zero (eks_minor version)

abbrev pub is_parameter_not_found : Error → Bool
is_parameter_not_found e = elim (api_code e) [
  | none ↦ false
  | some c ↦ str_eq c "ParameterNotFound"
]

-- The guard that stands at the top of ResolveLatestAMI and again behind the call.
abbrev pub is_unpublished : String → String → Bool
is_unpublished ami_type eks_version =
    is_al2 ami_type && leb_ℤ al2_unsupported_minor_cutoff (minor_of eks_version)

module _ (env : Env) where
  -- parseRecommendedAMI
  abbrev pub parse_recommended_ami : String → Result (String × String)
  parse_recommended_ami raw = env.unmarshal_ami raw

  abbrev pub recommended : String → String → Result (Option String) → Result (String × String)
  recommended ami_type eks_version (ok value) = parse_recommended_ami (env.to_string value)
  recommended ami_type eks_version (err e) =
      if is_parameter_not_found e && is_unpublished ami_type eks_version
      then err al2_unsupported
      else err e

  abbrev pub look_up : Config → String → String → String × Bool → M (Result (String × String))
  look_up c ami_type eks_version (path, is_custom) =
      if is_custom
      then pure (ok ("", ""))
      else (do r ← retry_get_parameter env c path; pure (recommended ami_type eks_version r))

  -- ResolveLatestAMI: the image id and the release version.
  unfoldable pub resolve_latest_ami : Config → String → String → M (Result (String × String))
  resolve_latest_ami c ami_type eks_version =
      if is_unpublished ami_type eks_version
      then pure (err al2_unsupported)
      else look_up c ami_type eks_version
          (build_ssm_path ami_type eks_version (minor_of eks_version))
