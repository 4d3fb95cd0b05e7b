-- ===== src/Webhook/Defaults.antt =====
-- Default of api/v1alpha1/nodegroupupgradepolicy_types.go, and what the webhook and the scheduler make
-- of a specification behind it.
use eks_ami_operator.Base.{
  ◌≡◌, ◌≢◌, ◌⊎◌, ◌↔◌, ◌*◌, inl, inr, refl, ap, ◌∙◌, arith, String, str_eq_sound, str_ne, none,
}
use eks_ami_operator.Base.Int.{pos}
use eks_ami_operator.Go.Time.{hour}
use eks_ami_operator.Go.Error.{Result, ok}
use eks_ami_operator.Go.ParseDuration.{parse_duration}
use eks_ami_operator.Scheduler.{parse_interval}
use eks_ami_operator.Api
use eks_ami_operator.Api.{default_spec, default_interval, default_timezone}
use eks_ami_operator.World.{Calendar}
use eks_ami_operator.Webhook.{validate_common_spec}
use eks_ami_operator.Webhook.Spec.{IsParsed, IsWellFormed, validate_common_spec_iff}

default_idempotent : (s : Api.Spec) → default_spec (default_spec s) ≡ default_spec s
unfolding default_interval default_timezone
default_idempotent s = ground arith

parse_interval_day : (cal : Calendar) → parse_interval cal "24h" ≡ pos (24 * hour)
unfolding parse_interval parse_duration
parse_interval_day cal = refl

-- The fields that have no default.
pub record SameGiven (s s' : Api.Spec) : Type 0 where
  pub cluster : s'.cluster_name ≡ s.cluster_name
  pub node_group : s'.node_group_name ≡ s.node_group_name
  pub region : s'.region ≡ s.region
  pub auto : s'.auto_upgrade ≡ s.auto_upgrade
  pub paused : s'.paused ≡ s.paused
  pub start : s'.start_after ≡ s.start_after
  pub cron : s'.schedule_cron ≡ s.schedule_cron

-- The interval is kept if there is a schedule; else it is a day.
abbrev pub IntervalBehind : Calendar → Api.Spec → Api.Spec → Type 0
IntervalBehind cal s s' =
    (((s.schedule_cron ≢ "") ⊎ (s.check_interval ≢ "")) × (s'.check_interval ≡ s.check_interval))
    ⊎ ((s.schedule_cron ≡ "")
        × (s.check_interval ≡ "")
        × (parse_interval cal s'.check_interval ≡ pos (24 * hour)))

-- The time zone is kept if it is named, or with no cron expression; else it is UTC.
abbrev pub ZoneBehind : Api.Spec → Api.Spec → Type 0
ZoneBehind s s' =
    (((s.schedule_cron ≡ "") ⊎ (s.schedule_timezone ≢ ""))
      × (s'.schedule_timezone ≡ s.schedule_timezone))
    ⊎ ((s.schedule_cron ≢ "") × (s.schedule_timezone ≡ "") × (s'.schedule_timezone ≡ "UTC"))

default-SameGiven : (s : Api.Spec) → SameGiven s (default_spec s)
unfolding default_interval default_timezone
default-SameGiven s = record {
  cluster = ground arith;
  node_group = ground arith;
  region = ground arith;
  auto = ground arith;
  paused = ground arith;
  start = ground arith;
  cron = ground arith;
}

default-IntervalBehind : (cal : Calendar) (s : Api.Spec) → IntervalBehind cal s (default_spec s)
unfolding default_interval default_timezone
default-IntervalBehind cal s = ground (
  arith,
  parse_interval_day cal,
  str_eq_sound s.schedule_cron "",
  str_eq_sound s.check_interval "",
  str_ne s.schedule_cron "",
  str_ne s.check_interval "",
)

default-ZoneBehind : (s : Api.Spec) → ZoneBehind s (default_spec s)
unfolding default_interval default_timezone
default-ZoneBehind s = ground (
  arith,
  str_eq_sound s.schedule_cron "",
  str_eq_sound s.schedule_timezone "",
  str_ne s.schedule_cron "",
  str_ne s.schedule_timezone "",
)

-- Defaulting any specification: a second time changes nothing. The interval is kept if there is one or a
-- cron expression, and else is read as 24 hours; the time zone is kept if it is named or there is no
-- cron expression, and else is UTC; all other fields are kept.
pub default_spec_lem :
    (cal : Calendar) (s : Api.Spec)
    → (default_spec (default_spec s) ≡ default_spec s)
      × SameGiven s (default_spec s)
      × IntervalBehind cal s (default_spec s)
      × ZoneBehind s (default_spec s)
default_spec_lem cal s =
    (default_idempotent s, default-SameGiven s, default-IntervalBehind cal s, default-ZoneBehind s)

-- A field that is kept, or that is omitted and written with a text that its parser accepts, is accepted
-- behind the defaults if and only if it is before.
IsParsed_iff :
    {A : Type 0} (parse : String → Result A) (s s' : String)
    → (s' ≡ s) ⊎ ((s ≡ "") × ((a : A) × (parse s' ≡ ok a)))
    → IsParsed s' (parse s') ↔ IsParsed s (parse s)
IsParsed_iff parse s s' (inl same) = rw same (λ h. h, λ h. h)
IsParsed_iff parse s s' (inr (omitted, written)) = (λ _. inl omitted, λ _. inr written)

interval_written :
    (s : Api.Spec)
    → let t = default_spec s in
      (t.check_interval ≡ s.check_interval) ⊎ ((s.check_interval ≡ "") × (t.check_interval ≡ "24h"))
unfolding default_interval default_timezone
interval_written s = ground (arith, str_eq_sound s.check_interval "")

parse_day : (cal : Calendar) → parse_duration cal.scale_fraction "24h" ≡ ok (pos (24 * hour))
unfolding parse_duration
parse_day cal = refl

module _ (cal : Calendar) (s : Api.Spec) where
  interval_iff :
      let t = default_spec s in
      IsParsed t.check_interval (parse_duration cal.scale_fraction t.check_interval)
      ↔ IsParsed s.check_interval (parse_duration cal.scale_fraction s.check_interval)
  interval_iff =
      let parse = parse_duration cal.scale_fraction in
      IsParsed_iff parse s.check_interval (default_spec s).check_interval
        (elim (interval_written s) [
          | inl same ↦ inl same
          | inr (omitted, day) ↦ inr (omitted, (_, ap parse day ∙ parse_day cal))
        ])

  zone_iff :
      (utc : String)
      → cal.load_location "UTC" ≡ ok utc
      → let t = default_spec s in
        IsParsed t.schedule_timezone (cal.load_location t.schedule_timezone)
        ↔ IsParsed s.schedule_timezone (cal.load_location s.schedule_timezone)
  zone_iff utc known =
      IsParsed_iff cal.load_location s.schedule_timezone (default_spec s).schedule_timezone
        (elim (default-ZoneBehind s) [
          | inl (_, same) ↦ inl same
          | inr (_, omitted, written) ↦ inr (omitted, (utc, ap cal.load_location written ∙ known))
        ])

  default-IsWellFormed_iff :
      (utc : String)
      → cal.load_location "UTC" ≡ ok utc
      → IsWellFormed cal (default_spec s) ↔ IsWellFormed cal s
  default-IsWellFormed_iff utc known =
      let g = default-SameGiven s in
      let (cron_to, cron_from) = IsParsed_iff cal.parse_cron s.schedule_cron _ (inl g.cron) in
      let (start_to, start_from) = IsParsed_iff cal.parse_rfc3339 s.start_after _ (inl g.start) in
      let (interval_to, interval_from) = interval_iff in
      let (zone_to, zone_from) = zone_iff utc known in
      (
        λ w. record {
          cluster = rw g.cluster at w.cluster;
          node_group = rw g.node_group at w.node_group;
          region = rw g.region at w.region;
          interval = interval_to w.interval;
          start = start_to w.start;
          timezone = zone_to w.timezone;
          cron = cron_to w.cron;
        },
        λ w. record {
          cluster = rw g.cluster w.cluster;
          node_group = rw g.node_group w.node_group;
          region = rw g.region w.region;
          interval = interval_from w.interval;
          start = start_from w.start;
          timezone = zone_from w.timezone;
          cron = cron_from w.cron;
        },
      )

  -- Validation behind the defaults accepts exactly the specifications that it accepts as they were
  -- written, if "UTC" is a known time zone.
  pub default_spec_accepted_iff :
      (utc : String)
      → cal.load_location "UTC" ≡ ok utc
      → (validate_common_spec cal (default_spec s) ≡ none) ↔ (validate_common_spec cal s ≡ none)
  default_spec_accepted_iff utc known =
      let (to, from) = default-IsWellFormed_iff utc known in
      let (well', accept') = validate_common_spec_iff cal (default_spec s) in
      let (well, accept) = validate_common_spec_iff cal s in
      (λ h. accept (to (well' h)), λ h. accept' (from (well h)))
