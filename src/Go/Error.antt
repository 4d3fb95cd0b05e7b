-- ===== src/Go/Error.antt =====
-- Errors as values, and results that carry them.
use eks_ami_operator.Base.{Bool, true, false, String, Option, none, some}

pub data Error : Type 0 where
  -- errors.New, and errors of libraries of which only the text is known
  plain : String → Error
  -- an error of the AWS SDK that is a smithy.APIError, with its code
  api : String → Error
  -- an error of the API server, with its reason
  status : String → Error
  -- ErrAL2UnsupportedOnCluster of internal/awsutils
  al2_unsupported : Error
  -- fmt.Errorf with %w
  wrapped : String → Error → Error

pub data Result {ℓ} (A : Type ℓ) : Type ℓ where
  ok : A → Result A
  err : Error → Result A

-- errors.Is(e, ErrAL2UnsupportedOnCluster)
abbrev pub is_al2_unsupported : Error → Bool
is_al2_unsupported al2_unsupported = true
is_al2_unsupported (wrapped _ e) = is_al2_unsupported e
is_al2_unsupported (plain _) = false
is_al2_unsupported (api _) = false
is_al2_unsupported (status _) = false

-- errors.As(e, &apiErr), and then apiErr.ErrorCode()
abbrev pub api_code : Error → Option String
api_code (api c) = some c
api_code (wrapped _ e) = api_code e
api_code (plain _) = none
api_code (status _) = none
api_code al2_unsupported = none

abbrev pub to_option {ℓ} : {A : Type ℓ} → Result A → Option A
to_option (ok a) = some a
to_option (err _) = none

-- The error of `if _, err := f(); err != nil { return fmt.Errorf(text, err) }`.
abbrev pub wrap_error {ℓ} : {A : Type ℓ} → String → Result A → Option Error
wrap_error text (ok _) = none
wrap_error text (err e) = some (wrapped text e)
