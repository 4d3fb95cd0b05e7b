-- ===== src/World/Free.antt =====
-- What a predicate of the state has to allow for ProcessUpgrade to keep it, if it does not depend on
-- the status: reads, writes to the metrics as internal/metrics documents, any assignment to the
-- status, and the two calls that write.
use eks_ami_operator.Base.{◌≡◌, refl, true, Bool, String, List, ◌∷◌}
use eks_ami_operator.Api.{Status}
use eks_ami_operator.Metrics.{Write, Value, Vector, set, inc}
use eks_ami_operator.Metrics.Documented.{is_made}
use eks_ami_operator.World.State.{Config, World, set_status, set_gauge, inc_counter}
use eks_ami_operator.World.External.{Env}
use eks_ami_operator.World.Keeps.{Keeps, Keeps-pure, Keeps-policy, Keeps-bind, Keeps-if}
use eks_ami_operator.World.Reads
use eks_ami_operator.World.Reads.{Reads}
use eks_ami_operator.World.Clock.{now}
use eks_ami_operator.World.Kube
use eks_ami_operator.World.Sdk

pub record Free (others : Bool) (env : Env) (P : World → Type 0) : Type 0 where
  pub reads : Reads P
  pub made :
      (x : Write) (w : World)
      → is_made others x ≡ true
      → P w
      → P (record w { metrics = x ∷ w.metrics })
  pub assigned : (f : Status → Status) → Keeps P (set_status f)
  pub persisted : Keeps P (Kube.update_status env)
  pub started :
      (c : Config) (cluster ng release : String)
      → Keeps P (Sdk.update_nodegroup_version env c cluster ng release)

module _ {others : Bool} {P : World → Type 0} (env : Env) (r : Free others env P) where
  pub set_status-Keeps : (f : Status → Status) → Keeps P (set_status f)
  set_status-Keeps f = r.assigned f

  pub set_gauge-Keeps :
      (v : Vector) (labels : List String) (x : Value)
      → is_made others (set v labels x) ≡ true
      → Keeps P (set_gauge v labels x)
  set_gauge-Keeps v labels x h = record { at = λ w inv. r.made _ w h inv }

  pub inc_counter-Keeps :
      (v : Vector) (labels : List String)
      → is_made others (inc v labels) ≡ true
      → Keeps P (inc_counter v labels)
  inc_counter-Keeps v labels h = record { at = λ w inv. r.made _ w h inv }

  pub now-Keeps : Keeps P (now env)
  now-Keeps = Reads.now-Keeps env r.reads

  pub describe_update-Keeps :
      (c : Config) (cluster ng id : String) → Keeps P (Sdk.describe_update env c cluster ng id)
  describe_update-Keeps c cluster ng id = record { at = λ w inv. r.reads.asked _ w refl inv }

  pub update_status-Keeps : Keeps P (Kube.update_status env)
  update_status-Keeps = r.persisted

  pub start-Keeps :
      (c : Config) (cluster ng release : String)
      → Keeps P (Sdk.update_nodegroup_version env c cluster ng release)
  start-Keeps c cluster ng release = r.started c cluster ng release

pub ruleset free = (
  refl, Keeps-pure, Keeps-policy, Keeps-bind, Keeps-if, set_status-Keeps, set_gauge-Keeps,
  inc_counter-Keeps, now-Keeps, describe_update-Keeps, update_status-Keeps, start-Keeps,
)
