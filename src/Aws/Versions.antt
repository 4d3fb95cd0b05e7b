-- ===== src/Aws/Versions.antt =====
-- The versions that eksMinor of internal/awsutils/version.go reads, and the AL2 groups on them.
use eks_ami_operator.Base.{
  ◌⊎◌, str_eq_sound, str_eq_complete, ℕ, ◌^◌, ◌≤◌, ◌<◌, ◌≡◌, ◌↔◌, refl, arith, true, String,
}
use eks_ami_operator.Base.Int.{pos}
use eks_ami_operator.Go.Text.{◌<>◌, to_upper}
use eks_ami_operator.Go.Error.{ok}
use eks_ami_operator.Go.Scan.Decimal.{decimal, Stops, sscanf_minor-decimal}
use eks_ami_operator.Aws.Version.{eks_minor}
use eks_ami_operator.Aws.Ami.{is_al2, minor_of, is_unpublished}

-- A version of the cluster: the two numbers, and a rest that does not go on with a digit.
abbrev pub version : ℕ → ℕ → String → String
version major minor rest = decimal major <> "." <> decimal minor <> rest

-- Two numbers below 2^63 that are printed with a dot between them, and before any rest that does not
-- begin with a digit, are read back to the minor number.
pub eks_minor-version :
    (major minor : ℕ) (rest : String)
    → major < 2 ^ 63
    → minor < 2 ^ 63
    → Stops rest
    → eks_minor (version major minor rest) ≡ ok (pos minor)
unfolding eks_minor
eks_minor-version major minor rest small small' stops =
    rw (sscanf_minor-decimal major minor rest small small' stops) refl

-- The two AL2 types, in any case of the letters.
abbrev pub IsAl2Type : String → Type 0
IsAl2Type t = (to_upper t ≡ "AL2_X86_64") ⊎ (to_upper t ≡ "AL2_ARM_64")

is_al2_iff : (t : String) → (is_al2 t ≡ true) ↔ IsAl2Type t
unfolding is_al2
is_al2_iff t =
    let v = to_upper t in
    (
      λ h. ground (arith, h, str_eq_sound v "AL2_X86_64", str_eq_sound v "AL2_ARM_64"),
      λ h. ground (arith, h, str_eq_complete v "AL2_X86_64", str_eq_complete v "AL2_ARM_64"),
    )

pub is_unpublished_iff :
    (ami_type : String) (major minor : ℕ) (rest : String)
    → major < 2 ^ 63
    → minor < 2 ^ 63
    → Stops rest
    → (is_unpublished ami_type (version major minor rest) ≡ true)
      ↔ (IsAl2Type ami_type × (33 ≤ minor))
unfolding minor_of
is_unpublished_iff ami_type major minor rest small small' stops =
    let (to, from) = is_al2_iff ami_type in
    rw (eks_minor-version major minor rest small small' stops) (
      λ h. (to (ground (arith, h)), ground (arith, h)),
      λ (al2, late). rw (from al2) (ground arith),
    )
