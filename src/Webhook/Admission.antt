-- ===== src/Webhook/Admission.antt =====
-- What the webhook of internal/webhook/v1alpha1/nodegroupupgradepolicy_webhook.go keeps true of an
-- object over its life: defaulted and validated when it is created and at every update.
use mathlib.Core.List.{Memᴰ}
use eks_ami_operator.Base.{
  suc, ◌≡◌, inl, inr, refl, ◌∙◌, arith, true, any, String, str_eq, str_eq_sound, Bool-cases, List,
  [], ◌∷◌, Option, none,
}
use eks_ami_operator.Go.Error.{Result, ok, err}
use eks_ami_operator.Api
use eks_ami_operator.Api.{Policy, Object, default_spec}
use eks_ami_operator.World.{Config, Env, World}
use eks_ami_operator.Aws.{new_aws_clients, from_config}
use eks_ami_operator.Webhook.{
  region_error, check_region, validate_common_spec, validate_immutable, validate_region,
  validate_create, validate_update,
}
use eks_ami_operator.Webhook.Spec.{IsWellFormed, validate_common_spec_iff, or_else_none}

-- The three fields that no update may change.
abbrev pub SameTarget : Api.Spec → Api.Spec → Type 0
SameTarget s t =
    (s.cluster_name ≡ t.cluster_name)
    × (s.node_group_name ≡ t.node_group_name)
    × (s.region ≡ t.region)

same_of_none : (old new : Api.Spec) → validate_immutable old new ≡ none → SameTarget new old
unfolding validate_immutable
same_of_none old new h = ground (
  arith,
  str_eq_sound new.cluster_name old.cluster_name,
  str_eq_sound new.node_group_name old.node_group_name,
  str_eq_sound new.region old.region,
)

module _ (env : Env) where
  -- The region is in the list that EC2 gives.
  abbrev pub IsListed : String → List (Option String) → Type 0
  IsListed region rs = (r : Option String) × Memᴰ r rs × (env.to_string r ≡ region)

  IsListed-of_any :
      (region : String) (rs : List (Option String))
      → any (λ r. str_eq (env.to_string r) region) rs ≡ true
      → IsListed region rs
  IsListed-of_any region [] h = cc
  IsListed-of_any region (r ∷ rs) h = elim (Bool-cases (str_eq (env.to_string r) region)) [
    | inl here ↦ (r, Memᴰ.head refl, str_eq_sound _ _ here)
    | inr there ↦ let (x, m, e) = IsListed-of_any region rs (rw there at h) in (x, Memᴰ.tail m, e)
  ]

  -- The region is one that EC2 lists, at the state `w`, to a client of that region.
  abbrev pub IsAwsRegion : String → World → Type 0
  IsAwsRegion region w =
      (cfg : Config) × (rs : List (Option String)) × (env.load_default_config w.tick region
        ≡ ok cfg)
      × (env.describe_regions (suc w.tick) cfg ≡ ok rs)
      × IsListed region rs

  IsListed-of_none :
      (region : String) (r : Result (List (Option String)))
      → region_error env region r ≡ none
      → (rs : List (Option String)) × (r ≡ ok rs) × IsListed region rs
  IsListed-of_none region (err e) h = cc
  IsListed-of_none region (ok rs) h = (rs, refl, IsListed-of_any region rs (ground arith))

  region_of_config :
      (region : String) (w v : World) (c : Result Config)
      → env.load_default_config w.tick region ≡ c
      → v.tick ≡ suc w.tick
      → (check_region env region (from_config c) v).0 ≡ none
      → IsAwsRegion region w
  region_of_config region w v (err e) loaded later h = cc
  region_of_config region w v (ok cfg) loaded later h =
      let (rs, described, listed) = IsListed-of_none region (env.describe_regions v.tick cfg) h in
      (cfg, rs, loaded, rw (← later) described, listed)

  region_accepted :
      (region : String) (w : World) → (validate_region env region w).0 ≡ none → IsAwsRegion region w
  unfolding validate_region new_aws_clients
  region_accepted region w h =
      region_of_config region w _ (env.load_default_config w.tick region) refl refl h

  -- The policy that the API server stores: the defaults are applied before the validation.
  abbrev pub defaulted : Policy → Policy
  defaulted p = record p { spec = default_spec p.spec }

  -- The objects that come of a creation of `origin` and of updates, each of them accepted.
  pub data History (origin : Policy) : Policy → Type 0 where
    created :
        (w : World)
        → (validate_create env (Object.policy (defaulted origin)) w).0 ≡ none
        → History origin (defaulted origin)
    updated :
        {old : Policy} (new : Policy)
        → History origin old
        → validate_update env (Object.policy old) (Object.policy (defaulted new)) ≡ none
        → History origin (defaulted new)

  spec_of_create :
      (p : Policy) (w : World)
      → (validate_create env (Object.policy p) w).0 ≡ none
      → (validate_common_spec env.calendar p.spec ≡ none)
        × ((validate_region env p.spec.region w).0 ≡ none)
  unfolding validate_create
  spec_of_create p w h = ground arith

  spec_of_update :
      (old new : Policy)
      → validate_update env (Object.policy old) (Object.policy new) ≡ none
      → (validate_immutable old.spec new.spec ≡ none)
        × (validate_common_spec env.calendar new.spec ≡ none)
  unfolding validate_update
  spec_of_update old new h = or_else_none _ _ h

  -- Whatever updates an object has been through, its specification is well formed, it still names
  -- the cluster, node group and region that it was created with, and that region was one that EC2
  -- listed at the creation.
  pub History-IsWellFormed :
      {origin p : Policy}
      → History origin p
      → IsWellFormed env.calendar p.spec
        × SameTarget p.spec (default_spec origin.spec)
        × ((w : World) × IsAwsRegion p.spec.region w)
  History-IsWellFormed {origin = o} (created w h) =
      let (spec, region) = spec_of_create (defaulted o) w h in
      ((validate_common_spec_iff _ _).0 spec, (refl, refl, refl), (w, region_accepted _ w region))
  History-IsWellFormed (updated {old = old} new before h) =
      let (same, spec) = spec_of_update old (defaulted new) h in
      let (c, n, r) = same_of_none old.spec (default_spec new.spec) same in
      let (_, (c', n', r'), (w, region)) = History-IsWellFormed before in
      ((validate_common_spec_iff _ _).0 spec, (c ∙ c', n ∙ n', r ∙ r'), (w, rw r region))
