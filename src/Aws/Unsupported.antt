-- ===== src/Aws/Unsupported.antt =====
-- When ResolveLatestAMI of internal/awsutils/aws_helpers.go says that there is no AL2 image.
use eks_ami_operator.Base.{
  ℕ, ◌^◌, ◌↔◌, ap, ◌<◌, ◌≤◌, ◌≡◌, refl, Bool, true, false, String, Option, arith, Bool-cases, inl,
  inr,
}
use eks_ami_operator.Go.Error.{Error, Result, ok, err, is_al2_unsupported, al2_unsupported}
use eks_ami_operator.World.{Config, Env, IsRetry, World}
use eks_ami_operator.Aws.Retry.{retry_get_parameter}
use eks_ami_operator.Aws.Ami.{
  build_ssm_path, minor_of, is_unpublished, recommended, look_up, resolve_latest_ami,
}
use eks_ami_operator.Go.Scan.Decimal.{Stops}
use eks_ami_operator.Aws.Versions.{version, IsAl2Type, is_unpublished_iff}
use eks_ami_operator.Aws.Attempts.{get_parameter_error}

-- The error of no library says that AL2 is unsupported.
pub record IsForeign (env : Env) : Type 0 where
  pub parameter :
      (k : ℕ) (c : Config) (path : String) (e : Error)
      → env.get_parameter k c path ≡ err e
      → is_al2_unsupported e ≡ false
  pub json :
      (raw : String) (e : Error) → env.unmarshal_ami raw ≡ err e → is_al2_unsupported e ≡ false

-- An answer that says that AL2 is unsupported.
abbrev pub SaysUnsupported : Result (String × String) → Type 0
SaysUnsupported r = (e : Error) × (r ≡ err e) × (is_al2_unsupported e ≡ true)

module _ (env : Env) (documented : IsRetry env) (foreign : IsForeign env) where
  recommended_supported :
      (ami_type version : String) (r : Result (Option String))
      → is_unpublished ami_type version ≡ false
      → ((e : Error) → r ≡ err e → is_al2_unsupported e ≡ false)
      → ¬ SaysUnsupported (recommended env ami_type version r)
  recommended_supported ami_type version (ok value) published h (e, same, says) =
      ground (arith, foreign.json (env.to_string value) e same)
  recommended_supported ami_type version (err d) published h (e, same, says) =
      ground (arith, h d refl)

  look_up_supported :
      (c : Config) (ami_type version : String) (path : String) (is_custom : Bool) (w : World)
      → is_unpublished ami_type version ≡ false
      → ¬ SaysUnsupported (look_up env c ami_type version (path, is_custom) w).0
  look_up_supported c ami_type version path true w published (e, same, says) = ground (arith, same)
  look_up_supported c ami_type version path false w published says =
      recommended_supported ami_type version (retry_get_parameter env c path w).0 published
        (get_parameter_error env documented (λ e. is_al2_unsupported e ≡ false) foreign.parameter
          refl c path w)
        says

  -- The guard at the top decides; the test behind the call of GetParameter adds nothing.
  guarded :
      (c : Config) (ami_type version : String) (w : World)
      → (is_unpublished ami_type version ≡ true
          → (resolve_latest_ami env c ami_type version w ≡ (err al2_unsupported, w)))
        × (SaysUnsupported (resolve_latest_ami env c ami_type version w).0
            → is_unpublished ami_type version ≡ true)
  unfolding resolve_latest_ami
  guarded c ami_type version w =
      let (path, is_custom) = build_ssm_path ami_type version (minor_of version) in
      elim (Bool-cases (is_unpublished ami_type version)) [
        | inl unpublished ↦ (λ _. rw unpublished refl, λ _. unpublished)
        | inr published ↦ (
          λ h. ground (arith, h, published),
          λ says. absurd (
              look_up_supported c ami_type version path is_custom w published
                (rw published at says)),
        )
      ]

  -- On a version of the form major.minor with any rest that does not begin with a digit, such as 1.33,
  -- ResolveLatestAMI answers that AL2 is unsupported exactly for the types AL2_x86_64 and AL2_ARM_64
  -- (in any case of the letters) from minor version 33 on, and then without a call and with nothing
  -- changed. backoff.Retry runs as documented, no error of the libraries says so, and the two numbers
  -- are below 2^63.
  pub resolve_latest_ami_unsupported :
      (c : Config) (ami_type : String) (major minor : ℕ) (rest : String) (w : World)
      → major < 2 ^ 63
      → minor < 2 ^ 63
      → Stops rest
      → let r = resolve_latest_ami env c ami_type (version major minor rest) w in
        (SaysUnsupported r.0 ↔ (IsAl2Type ami_type × (33 ≤ minor)))
        × (IsAl2Type ami_type × (33 ≤ minor) → r ≡ (err al2_unsupported, w))
  resolve_latest_ami_unsupported c ami_type major minor rest w small small' stops =
      let (to, from) = is_unpublished_iff ami_type major minor rest small small' stops in
      let (says, only) = guarded c ami_type (version major minor rest) w in
      (
        (λ h. to (only h), λ h. (al2_unsupported, ap (λ r. r.0) (says (from h)), refl)),
        λ h. says (from h),
      )
