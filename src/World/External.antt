-- ===== src/World/External.antt =====
-- What lies outside the repository: the parameters of the model.
use eks_ami_operator.Base.{ℕ, ◌<◌, ◌≡◌, Bool, String, List, Option, none, some, suc}
use eks_ami_operator.Base.Int.{◌≤ℤ◌}
use eks_ami_operator.Go.Time.{Time, Duration}
use eks_ami_operator.Go.Error.{Error, Result}
use eks_ami_operator.Api.{Policy, Condition}
use eks_ami_operator.World.State.{Config, World, M}

-- A time zone, by its name.
abbrev pub Location : Type 0
Location = String

-- cron.Schedule: its method Next, on an instant in a zone.
abbrev pub Schedule : Type 0
Schedule = Location → Time → Time

-- The time zone database, robfig/cron's parser of five fields, time.Parse with the layout RFC3339,
-- and the float64 product in time.ParseDuration.
pub record Calendar : Type 0 where
  pub load_location : String → Result Location
  pub parse_cron : String → Result Schedule
  pub parse_rfc3339 : String → Result Time
  pub scale_fraction : ℕ → ℕ → ℕ → ℕ

-- eks/types.Nodegroup, eks/types.ErrorDetail and eks/types.Update, the fields that are read.
pub record Nodegroup : Type 0 where
  pub ami_type : String
  pub release_version : Option String

pub record ErrorDetail : Type 0 where
  pub error_code : String
  pub error_message : Option String

pub record Update : Type 0 where
  pub id : Option String
  pub status : String
  pub errors : List ErrorDetail
  pub created_at : Option Time
  pub update_type : String

-- The fields of backoff.ExponentialBackOff that are set.
pub record ExponentialBackOff : Type 0 where
  pub initial_interval : Duration
  pub max_elapsed_time : Duration

-- What an operation gives to backoff.Retry: nil, backoff.Permanent(err), or another error.
pub data Attempt : Type 0 where
  succeeded : Attempt
  permanent : Error → Attempt
  transient : Error → Attempt

pub record Env : Type 1 where
  pub calendar : Calendar
  -- time.Now, and the package-level math/rand generators
  pub now : ℕ → Time
  pub int63n : ℕ → ℕ → ℕ
  pub intn : ℕ → ℕ → ℕ
  -- the Kubernetes client and its helpers
  pub get : ℕ → String → Result Policy
  pub update : ℕ → Policy → Result Policy
  pub update_status : ℕ → Policy → Result Policy
  pub ignore_not_found : Error → Option Error
  pub contains_finalizer : List String → String → Bool
  pub add_finalizer : List String → String → List String
  pub remove_finalizer : List String → String → List String
  pub set_status_condition : List Condition → Condition → List Condition
  -- the AWS SDK
  pub load_default_config : ℕ → String → Result Config
  pub describe_nodegroup : ℕ → Config → String → String → Result Nodegroup
  pub describe_cluster : ℕ → Config → String → Result (Option String)
  pub get_parameter : ℕ → Config → String → Result (Option String)
  pub describe_update : ℕ → Config → String → String → String → Result Update
  pub update_nodegroup_version : ℕ → Config → String → String → String → Result (Option String)
  pub describe_regions : ℕ → Config → Result (List (Option String))
  pub to_string : Option String → String
  -- json.Unmarshal into image_id and release_version
  pub unmarshal_ami : String → Result (String × String)
  -- backoff.Retry, with the variable that the operation assigns
  pub retry : (A : Type 0) → ExponentialBackOff → M (A × Attempt) → M (A × Option Error)

-- The generators draw below their bound.
pub record IsRandom (env : Env) : Type 0 where
  pub int63n-lt : (k n : ℕ) → 0 < n → env.int63n k n < n
  pub intn-lt : (k n : ℕ) → 0 < n → env.intn k n < n

-- The clock does not run backwards.
abbrev pub IsMonotone : Env → Type 0
IsMonotone env = (k : ℕ) → env.now k ≤ℤ env.now (suc k)

-- The runs of backoff.Retry that its documentation allows: the operation is called until it
-- succeeds, fails for good, or the backoff stops.
pub data Runs {A : Type 0} (op : M (A × Attempt))
    : World → (A × Option Error) × World → Type 0 where
  success : {w w' : World} {a : A} → op w ≡ ((a, succeeded), w') → Runs op w ((a, none), w')
  failure :
      {w w' : World} {a : A} {e : Error}
      → op w ≡ ((a, permanent e), w')
      → Runs op w ((a, some e), w')
  stop :
      {w w' : World} {a : A} {e : Error}
      → op w ≡ ((a, transient e), w')
      → Runs op w ((a, some e), w')
  again :
      {w w' : World} {a : A} {e : Error} {r : (A × Option Error) × World}
      → op w ≡ ((a, transient e), w')
      → Runs op w' r
      → Runs op w r

pub record IsRetry (env : Env) : Type 1 where
  pub runs :
      (A : Type 0) (b : ExponentialBackOff) (op : M (A × Attempt)) (w : World)
      → Runs op w (env.retry A b op w)
