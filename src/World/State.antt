-- ===== src/World/State.antt =====
-- The state, its monad, and the writes to metrics.
use eks_ami_operator.Base.{ℕ, String, List, ◌∷◌}
use eks_ami_operator.Api.{Policy, Status}
use eks_ami_operator.Metrics.{Write, Vector, Value, set, inc}

-- aws.Config, with the region that it was loaded for; a service client is made from it alone.
pub record Config : Type 0 where
  pub region : String

-- The calls of the Kubernetes client and of the AWS SDK, with their arguments.
pub data Call : Type 0 where
  get : String → Call
  update : Policy → Call
  update_status : Policy → Call
  load_default_config : String → Call
  describe_nodegroup : Config → String → String → Call
  describe_cluster : Config → String → Call
  get_parameter : Config → String → Call
  describe_update : Config → String → String → String → Call
  update_nodegroup_version : Config → String → String → String → Call
  describe_regions : Config → Call

-- `policy` is the object that the handlers share by its pointer; `tick` counts the answers from
-- outside.
pub record World : Type 0 where
  pub policy : Policy
  pub tick : ℕ
  pub calls : List Call
  pub metrics : List Write

abbrev pub M {ℓ} : Type ℓ → Type ℓ
M A = World → A × World

infixl 5 ◌>>=◌ ◌>>◌
abbrev pub ◌>>=◌ {ℓ κ} : {A : Type ℓ} {B : Type κ} → M A → (A → M B) → M B
◌>>=◌ m f w = let (a, w') = m w in f a w'

abbrev pub ◌>>◌ {ℓ κ} : {A : Type ℓ} {B : Type κ} → M A → M B → M B
m >> k = m >>= λ _. k

abbrev pub pure {ℓ} : {A : Type ℓ} → A → M A
pure a w = (a, w)

abbrev pub policy : M Policy
policy w = (w.policy, w)

-- An assignment to fields of policy.Status.
abbrev pub set_status : (Status → Status) → M (Unit {0})
set_status f w = (tt, record w { policy = record (w.policy) { status = f w.policy.status } })

abbrev pub write : Write → M (Unit {0})
write x w = (tt, record w { metrics = x ∷ w.metrics })

abbrev pub set_gauge : Vector → List String → Value → M (Unit {0})
set_gauge v labels x = write (set v labels x)

abbrev pub inc_counter : Vector → List String → M (Unit {0})
inc_counter v labels = write (inc v labels)
