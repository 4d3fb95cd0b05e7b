-- ===== src/World/Reads.antt =====
-- What a predicate of the state has to allow for the steps that only read: the clock, the random
-- generators, and the calls of the AWS SDK that change nothing. They also write the delay of the
-- next run to its gauge.
use eks_ami_operator.Base.{ℕ, suc, ◌≡◌, refl, Bool, true, false, String, List, [], ◌∷◌, arith}
use eks_ami_operator.Metrics.{Value, set, next_run_seconds}
use eks_ami_operator.World.State.{Config, Call, World, set_gauge}
use eks_ami_operator.World.External.{Env}
use eks_ami_operator.World.Keeps.{Keeps, Keeps-pure, Keeps-policy, Keeps-bind, Keeps-if}
use eks_ami_operator.World.Clock.{now, int63n, intn}
use eks_ami_operator.World.Kube.{called}
use eks_ami_operator.World.Sdk
use eks_ami_operator.World.Stores.{stores}

abbrev pub is_read : Call → Bool
is_read (Call.load_default_config _) = true
is_read (Call.describe_nodegroup _ _ _) = true
is_read (Call.describe_cluster _ _) = true
is_read (Call.get_parameter _ _) = true
is_read (Call.describe_update _ _ _ _) = true
is_read (Call.describe_regions _) = true
is_read _ = false

pub stores-read : (c : Call) (cs : List Call) → is_read c ≡ true → stores (c ∷ cs) ≡ stores cs
stores-read c cs h = ground arith

pub record Reads (P : World → Type 0) : Type 0 where
  pub ticked : (w : World) → P w → P (record w { tick = suc w.tick })
  pub asked : (c : Call) (w : World) → is_read c ≡ true → P w → P (called c w)
  pub shown :
      (cluster ng : String) (x : Value) (w : World)
      → P w
      → P (record w { metrics = set next_run_seconds (cluster ∷ ng ∷ []) x ∷ w.metrics })

module _ {P : World → Type 0} (env : Env) (r : Reads P) where
  pub now-Keeps : Keeps P (now env)
  now-Keeps = record { at = λ w h. r.ticked w h }

  pub int63n-Keeps : (n : ℕ) → Keeps P (int63n env n)
  int63n-Keeps n = record { at = λ w h. r.ticked w h }

  pub intn-Keeps : (n : ℕ) → Keeps P (intn env n)
  intn-Keeps n = record { at = λ w h. r.ticked w h }

  pub show-Keeps :
      (cluster ng : String) (x : Value) → Keeps P (set_gauge next_run_seconds (cluster ∷ ng ∷ []) x)
  show-Keeps cluster ng x = record { at = λ w h. r.shown cluster ng x w h }

  pub config-Keeps : (region : String) → Keeps P (Sdk.load_default_config env region)
  config-Keeps region = record { at = λ w h. r.asked _ w refl h }

  pub nodegroup-Keeps :
      (c : Config) (cluster ng : String) → Keeps P (Sdk.describe_nodegroup env c cluster ng)
  nodegroup-Keeps c cluster ng = record { at = λ w h. r.asked _ w refl h }

  pub cluster-Keeps : (c : Config) (cluster : String) → Keeps P (Sdk.describe_cluster env c cluster)
  cluster-Keeps c cluster = record { at = λ w h. r.asked _ w refl h }

  pub parameter-Keeps : (c : Config) (path : String) → Keeps P (Sdk.get_parameter env c path)
  parameter-Keeps c path = record { at = λ w h. r.asked _ w refl h }

pub ruleset reading = (
  refl, Keeps-pure, Keeps-policy, Keeps-bind, Keeps-if, now-Keeps, int63n-Keeps, intn-Keeps,
  show-Keeps, config-Keeps, nodegroup-Keeps, cluster-Keeps, parameter-Keeps,
)
