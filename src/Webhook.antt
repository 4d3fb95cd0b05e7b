-- ===== src/Webhook.antt =====
-- internal/webhook/v1alpha1/nodegroupupgradepolicy_webhook.go: the validating webhook.
pub mod Spec
pub mod Admission
pub mod Understood
pub mod Defaults
use eks_ami_operator.Base.{
  Bool, true, false, not, String, str_eq, List, [], ◌∷◌, any, if◌then◌else◌, Option, none, some,
}
use eks_ami_operator.Go.Text.{◌<>◌}
use eks_ami_operator.Go.Error.{Error, plain, wrapped, Result, ok, err, wrap_error}
use eks_ami_operator.Go.ParseDuration.{parse_duration}
use eks_ami_operator.Api
use eks_ami_operator.Api.{Object, Policy}
use eks_ami_operator.World.{Calendar, Config, Env, M, ◌>>=◌, ◌>>◌, pure}
use eks_ami_operator.World.Sdk
use eks_ami_operator.Aws.{AwsClients, new_aws_clients}

-- The first error of two checks made in turn.
infixr 5 ◌or_else◌
abbrev pub ◌or_else◌ : Option Error → Option Error → Option Error
some e or_else f = some e
none or_else f = f

-- `if s == "" { return text }`
abbrev pub required : String → String → Option Error
required s text = if str_eq s "" then some (plain text) else none

-- A check of a field that may be left empty.
abbrev pub if_given {ℓ} : {A : Type ℓ} → String → String → Result A → Option Error
if_given s text r = if not (str_eq s "") then wrap_error text r else none

-- validateCommonSpec
unfoldable pub validate_common_spec : Calendar → Api.Spec → Option Error
validate_common_spec cal s =
    required s.cluster_name "spec.clusterName must not be empty"
    or_else required s.node_group_name "spec.nodeGroupName must not be empty"
    or_else required s.region "spec.region must not be empty"
    or_else if_given s.check_interval
        "spec.checkInterval must be a valid duration string (e.g., '24h')"
        (parse_duration cal.scale_fraction s.check_interval)
    or_else if_given s.start_after "spec.startAfter must be a valid RFC3339 timestamp"
        (cal.parse_rfc3339 s.start_after)
    or_else if_given s.schedule_timezone "spec.scheduleTimezone must be a valid IANA timezone"
        (cal.load_location s.schedule_timezone)
    or_else if_given s.schedule_cron "spec.scheduleCron is invalid (expected 5-field cron)"
        (cal.parse_cron s.schedule_cron)

-- The three comparisons of ValidateUpdate.
unfoldable pub validate_immutable : Api.Spec → Api.Spec → Option Error
validate_immutable old new =
    if not (str_eq new.cluster_name old.cluster_name)
    then some (plain "spec.clusterName cannot be changed after creation")
    else if not (str_eq new.node_group_name old.node_group_name)
    then some (plain "spec.nodeGroupName cannot be changed after creation")
    else if not (str_eq new.region old.region)
    then some (plain "spec.region cannot be changed after creation")
    else none

module _ (env : Env) where
  -- The loop over resp.Regions.
  abbrev pub region_error : String → Result (List (Option String)) → Option Error
  region_error region (err e) = some (wrapped "unable to validate spec.region" e)
  region_error region (ok rs) =
      if any (λ r. str_eq (env.to_string r) region) rs
      then none
      else some (plain "spec.region must be a valid AWS region")

  abbrev pub check_region : String → Result AwsClients → M (Option Error)
  check_region region (err e) = pure (some (wrapped "unable to validate spec.region" e))
  check_region region (ok c) = do rs ← Sdk.describe_regions env c.ec2; pure (region_error region rs)

  -- validateRegion
  unfoldable pub validate_region : String → M (Option Error)
  validate_region region = do c ← new_aws_clients env region; check_region region c

  -- The error on an object of the type `t`.
  abbrev pub wrong_type : String → String → Option Error
  wrong_type text t = some (plain (text <> t))

  -- ValidateCreate; the warnings are always nil.
  unfoldable pub validate_create : Object → M (Option Error)
  validate_create (Object.other t) =
      pure (wrong_type "expected a NodeGroupUpgradePolicy object but got " t)
  validate_create (Object.policy p) = elim (validate_common_spec env.calendar p.spec) [
    | some e ↦ pure (some e)
    | none ↦ validate_region p.spec.region
  ]

  -- ValidateUpdate
  unfoldable pub validate_update : Object → Object → Option Error
  validate_update old (Object.other t) =
      wrong_type "expected a NodeGroupUpgradePolicy object for the newObj but got " t
  validate_update (Object.other t) (Object.policy new) =
      wrong_type "expected a NodeGroupUpgradePolicy object for the oldObj but got " t
  validate_update (Object.policy old) (Object.policy new) =
      validate_immutable old.spec new.spec or_else validate_common_spec env.calendar new.spec

  -- ValidateDelete
  unfoldable pub validate_delete : Object → Option Error
  validate_delete (Object.other t) =
      wrong_type "expected a NodeGroupUpgradePolicy object but got " t
  validate_delete (Object.policy _) = none
