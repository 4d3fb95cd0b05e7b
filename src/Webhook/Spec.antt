-- ===== src/Webhook/Spec.antt =====
-- What validateCommonSpec of internal/webhook/v1alpha1/nodegroupupgradepolicy_webhook.go accepts.
use eks_ami_operator.Base.{
  ◌≡◌, ◌≢◌, ◌⊎◌, ◌↔◌, inl, inr, refl, arith, String, str_eq_sound, str_eq_complete, Option, none,
  some,
}
use eks_ami_operator.Go.Error.{Error, Result, ok, err}
use eks_ami_operator.Go.ParseDuration.{parse_duration}
use eks_ami_operator.Api
use eks_ami_operator.Api.{default_spec, default_interval, default_timezone}
use eks_ami_operator.World.{Calendar}
use eks_ami_operator.Webhook.{required, if_given, ◌or_else◌, validate_common_spec}

-- A field is empty, or its parser accepts it.
abbrev pub IsParsed {ℓ} : {A : Type ℓ} → String → Result A → Type ℓ
IsParsed {A} s r = (s ≡ "") ⊎ ((a : A) × (r ≡ ok a))

-- A well-formed specification.
pub record IsWellFormed (cal : Calendar) (s : Api.Spec) : Type 0 where
  pub cluster : s.cluster_name ≢ ""
  pub node_group : s.node_group_name ≢ ""
  pub region : s.region ≢ ""
  pub interval : IsParsed s.check_interval (parse_duration cal.scale_fraction s.check_interval)
  pub start : IsParsed s.start_after (cal.parse_rfc3339 s.start_after)
  pub timezone : IsParsed s.schedule_timezone (cal.load_location s.schedule_timezone)
  pub cron : IsParsed s.schedule_cron (cal.parse_cron s.schedule_cron)

pub or_else_none : (e f : Option Error) → (e or_else f) ≡ none → (e ≡ none) × (f ≡ none)
or_else_none none f h = (refl, h)
or_else_none (some e) f h = cc

none_or_else : (e f : Option Error) → e ≡ none → f ≡ none → (e or_else f) ≡ none
none_or_else e f h k = rw (h, k)

required_iff : (s text : String) → (required s text ≡ none) ↔ (s ≢ "")
required_iff s text =
    (λ h e. ground (arith, str_eq_complete s ""), λ h. ground (arith, str_eq_sound s ""))

module _ {A : Type 0} (s text : String) where
  if_given_parsed : (r : Result A) → if_given s text r ≡ none → IsParsed s r
  if_given_parsed (ok a) h = inr (a, refl)
  if_given_parsed (err e) h = inl (str_eq_sound s "" (ground arith))

  parsed_if_given : (r : Result A) → IsParsed s r → if_given s text r ≡ none
  parsed_if_given r (inl e) = ground (arith, str_eq_complete s "")
  parsed_if_given (ok a) (inr p) = ground arith
  parsed_if_given (err e) (inr (a, p)) = cc

module _ (cal : Calendar) (s : Api.Spec) where
  IsWellFormed-of_none : validate_common_spec cal s ≡ none → IsWellFormed cal s
  unfolding validate_common_spec
  IsWellFormed-of_none h =
      let (c, h₁) = or_else_none _ _ h in
      let (n, h₂) = or_else_none _ _ h₁ in
      let (r, h₃) = or_else_none _ _ h₂ in
      let (i, h₄) = or_else_none _ _ h₃ in
      let (st, h₅) = or_else_none _ _ h₄ in
      let (tz, cr) = or_else_none _ _ h₅ in
      record {
        cluster = (required_iff _ _).0 c;
        node_group = (required_iff _ _).0 n;
        region = (required_iff _ _).0 r;
        interval = if_given_parsed _ _ _ i;
        start = if_given_parsed _ _ _ st;
        timezone = if_given_parsed _ _ _ tz;
        cron = if_given_parsed _ _ _ cr;
      }

  none_of_well_formed : IsWellFormed cal s → validate_common_spec cal s ≡ none
  unfolding validate_common_spec
  none_of_well_formed w = none_or_else _ _ ((required_iff _ _).1 w.cluster) (
      none_or_else _ _ ((required_iff _ _).1 w.node_group) (
        none_or_else _ _ ((required_iff _ _).1 w.region) (
          none_or_else _ _ (parsed_if_given _ _ _ w.interval) (
            none_or_else _ _ (parsed_if_given _ _ _ w.start) (
              none_or_else _ _ (parsed_if_given _ _ _ w.timezone)
                (parsed_if_given _ _ _ w.cron))))))

  -- validateCommonSpec accepts exactly the well-formed specifications: cluster, node group and
  -- region are named, and the interval, start time, time zone and cron expression are each empty or
  -- accepted by their parser.
  pub validate_common_spec_iff : (validate_common_spec cal s ≡ none) ↔ IsWellFormed cal s
  validate_common_spec_iff = (IsWellFormed-of_none, none_of_well_formed)
