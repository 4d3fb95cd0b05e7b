-- ===== src/Examples/Admitting.antt =====
-- Tests of the webhooks.
use eks_ami_operator.Base.{◌≡◌, ◌↔◌, true, refl, none}
use eks_ami_operator.Go.ParseDuration.{parse_duration}
use eks_ami_operator.Api.{Spec, Policy, Object, default_spec, default_interval, default_timezone}
use eks_ami_operator.World.{World}
use eks_ami_operator.Aws.{new_aws_clients}
use eks_ami_operator.Webhook.{
  validate_common_spec, validate_region, validate_create, validate_update, validate_immutable,
}
use eks_ami_operator.Webhook.Spec.{IsWellFormed, validate_common_spec_iff}
use eks_ami_operator.Webhook.Defaults.{
  SameGiven, IntervalBehind, ZoneBehind, default_spec_lem, default_spec_accepted_iff,
}
use eks_ami_operator.Webhook.Admission.{
  SameTarget, IsAwsRegion, created, updated, defaulted, History-IsWellFormed,
}
use eks_ami_operator.Examples.{calendar, env, start, policy, spec}

validate_common_spec_iff_example :
    (validate_common_spec calendar spec ≡ none) ↔ IsWellFormed calendar spec
validate_common_spec_iff_example = validate_common_spec_iff calendar spec

-- A specification without a schedule.
abbrev bare : Spec
bare = record spec { check_interval = "" }

default_spec_lem_example :
    (default_spec (default_spec bare) ≡ default_spec bare)
    × SameGiven bare (default_spec bare)
    × IntervalBehind calendar bare (default_spec bare)
    × ZoneBehind bare (default_spec bare)
default_spec_lem_example = default_spec_lem calendar bare

default_spec_accepted_iff_example :
    (validate_common_spec calendar (default_spec bare) ≡ none)
    ↔ (validate_common_spec calendar bare ≡ none)
default_spec_accepted_iff_example = default_spec_accepted_iff calendar bare "UTC" refl

-- A policy that is created, and then paused.
abbrev paused : Policy
paused = record policy { spec = record spec { paused = true } }

creation : (validate_create env (Object.policy (defaulted env policy)) start).0 ≡ none
unfolding validate_create validate_common_spec parse_duration validate_region new_aws_clients
    default_interval default_timezone
creation = refl

pausing :
    validate_update env
      (Object.policy (defaulted env policy))
      (Object.policy (defaulted env paused))
    ≡ none
unfolding validate_update validate_immutable validate_common_spec parse_duration default_interval
    default_timezone
pausing = refl

History-IsWellFormed_example :
    IsWellFormed calendar (defaulted env paused).spec
    × SameTarget (defaulted env paused).spec (default_spec spec)
    × ((w : World) × IsAwsRegion env (defaulted env paused).spec.region w)
History-IsWellFormed_example =
    History-IsWellFormed env {origin = policy} {p = defaulted env paused}
      (updated paused (created start creation) pausing)
