-- ===== src/Aws/Paths.antt =====
-- The parameters that ResolveLatestAMI of internal/awsutils/aws_helpers.go reads.
use eks_ami_operator.Base.{
  ◌≡◌, refl, ◌⊎◌, inl, inr, arith, Bool, true, false, Bool-cases, String, List, ◌∷◌,
}
use eks_ami_operator.Base.Int.{pos, leb_ℤ}
use eks_ami_operator.Go.Time.{Duration}
use eks_ami_operator.Go.Text.{◌<>◌, to_upper}
use eks_ami_operator.World.{Config, Call, Env, IsRetry, World}
use eks_ami_operator.World.Keeps.{Keeps, Keeps-bind, Keeps-pure, retry-Keeps}
use eks_ami_operator.Aws.Retry.{
  new_jitter_backoff, parameter_operation, retry_get_parameter, outcome,
}
use eks_ami_operator.Aws.Ami.{
  is_al2, build_ssm_path, minor_of, is_unpublished, recommended, look_up, resolve_latest_ami,
}

-- The calls are those of before, and reads of parameters with a path of `P`.
pub data Reads (P : String → Type 0) (c : Config) (cs : List Call) : List Call → Type 0 where
  done : Reads P c cs cs
  read :
      {ds : List Call} {path : String}
      → P path
      → Reads P c cs ds
      → Reads P c cs (Call.get_parameter c path ∷ ds)

abbrev Reading : (String → Type 0) → Config → List Call → World → Type 0
Reading P c cs w = Reads P c cs w.calls

module _ (env : Env) (documented : IsRetry env) {P : String → Type 0} (c : Config)
    {cs : List Call} where
  backoff-Keeps : (a b : Duration) → Keeps (Reading P c cs) (new_jitter_backoff env a b)
  unfolding new_jitter_backoff
  backoff-Keeps a b = record { at = λ w h. h }

  operation-Keeps :
      (path : String) → P path → Keeps (Reading P c cs) (parameter_operation env c path)
  operation-Keeps path p = record { at = λ w h. read p h }

  get-Keeps : (path : String) → P path → Keeps (Reading P c cs) (retry_get_parameter env c path)
  unfolding retry_get_parameter
  get-Keeps path p = Keeps-bind (backoff-Keeps _ _) λ b.
      Keeps-bind (retry-Keeps env documented _ b _ (operation-Keeps path p))
        λ r. Keeps-pure (outcome r)

  look_up-Keeps :
      (ami_type version : String) (path : String × Bool)
      → (path.1 ≡ false → P path.0)
      → Keeps (Reading P c cs) (look_up env c ami_type version path)
  look_up-Keeps ami_type version (path, true) h = Keeps-pure _
  look_up-Keeps ami_type version (path, false) h =
      Keeps-bind (get-Keeps path (h refl)) λ r. Keeps-pure (recommended env ami_type version r)

  resolve-Keeps :
      (ami_type version : String)
      → (is_unpublished ami_type version ≡ false
          → (build_ssm_path ami_type version (minor_of version)).1 ≡ false
          → P (build_ssm_path ami_type version (minor_of version)).0)
      → Keeps (Reading P c cs) (resolve_latest_ami env c ami_type version)
  unfolding resolve_latest_ami
  resolve-Keeps ami_type version h = elim (Bool-cases (is_unpublished ami_type version)) [
    | inl unpublished ↦ rw unpublished (Keeps-pure _)
    | inr published ↦ rw published (look_up-Keeps ami_type version _ (h published))
  ]

-- The name of the parameter of an image.
abbrev pub parameter : String → String → String
parameter version image = "/aws/service/eks/optimized-ami/" <> version <> image

-- The images of Amazon Linux that EKS publishes for a version: those of AL2 below minor version 33.
abbrev pub IsPublished : String → String → Type 0
IsPublished version path =
    (path ≡ parameter version "/amazon-linux-2023/x86_64/standard/recommended")
    ⊎ (path ≡ parameter version "/amazon-linux-2023/arm64/standard/recommended")
    ⊎ ((leb_ℤ (pos 33) (minor_of version) ≡ false)
        × ((path ≡ parameter version "/amazon-linux-2/recommended")
            ⊎ (path ≡ parameter version "/amazon-linux-2-arm64/recommended")))

path-IsPublished :
    (ami_type version : String)
    → is_unpublished ami_type version ≡ false
    → (build_ssm_path ami_type version (minor_of version)).1 ≡ false
    → IsPublished version (build_ssm_path ami_type version (minor_of version)).0
unfolding build_ssm_path is_al2
path-IsPublished ami_type version published plain = ground arith

-- Whatever the type of the node group and the version of the cluster, ResolveLatestAMI makes no
-- calls but reads of the image of Amazon Linux 2023 for that version, or, below minor version 33
-- only, of Amazon Linux 2, if backoff.Retry runs as documented.
pub resolve_latest_ami-IsPublished :
    (env : Env)
    → IsRetry env
    → (c : Config) (ami_type version : String) (w : World)
    → Reads (IsPublished version) c w.calls (resolve_latest_ami env c ami_type version w).1.calls
resolve_latest_ami-IsPublished env documented c ami_type version w =
    (resolve-Keeps env documented c ami_type version (path-IsPublished ami_type version)).at w done

-- The table of README.md: the types and their images.
pub data Row : String → String → Type 0 where
  x86_on_al2 : Row "AL2_x86_64" "/amazon-linux-2/recommended"
  arm_on_al2 : Row "AL2_ARM_64" "/amazon-linux-2-arm64/recommended"
  x86_on_al2023 : Row "AL2023_x86_64_STANDARD" "/amazon-linux-2023/x86_64/standard/recommended"
  arm_on_al2023 : Row "AL2023_ARM_64_STANDARD" "/amazon-linux-2023/arm64/standard/recommended"

path-Row :
    (ami_type image version : String)
    → Row ami_type image
    → (build_ssm_path ami_type version (minor_of version)).0 ≡ parameter version image
unfolding build_ssm_path to_upper
path-Row _ _ version x86_on_al2 = refl
path-Row _ _ version arm_on_al2 = refl
path-Row _ _ version x86_on_al2023 = refl
path-Row _ _ version arm_on_al2023 = refl

-- For a type of a row of README's table, every call of ResolveLatestAMI is a read of the parameter
-- in the row, if backoff.Retry runs as documented.
pub resolve_latest_ami-Row :
    (env : Env)
    → IsRetry env
    → (c : Config) (ami_type image version : String) (w : World) → Row ami_type image
    → Reads
        (λ path. path ≡ parameter version image)
        c
        w.calls
        (resolve_latest_ami env c ami_type version w).1.calls
resolve_latest_ami-Row env documented c ami_type image version w row =
    (resolve-Keeps env documented c ami_type version
        (λ _ _. path-Row ami_type image version row)).at
      w done
