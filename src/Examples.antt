-- ===== src/Examples.antt =====
-- A concrete environment, a policy and a state, for the tests: a cluster "c" on EKS 1.31 whose node
-- group "n" is one release behind, and a cron expression that fires at every minute.
pub mod Minutely
pub mod Reconciling
pub mod Living
pub mod Parsing
pub mod Scheduling
pub mod Answers
pub mod Commanding
pub mod Copying
pub mod Measuring
pub mod Following
pub mod Queueing
pub mod Admitting
use eks_ami_operator.Base.{
  ℕ, suc, ◌+◌, ◌*◌, ◌<◌, ◌≡◌, refl, Bool, true, false, String, str_eq, List, [], ◌∷◌, any, Option,
  none, some, if◌then◌else◌, inl, inr,
}
use eks_ami_operator.Base.Int.{ℤ, pos}
use eks_ami_operator.Go.Time.{Time, second, hour, zero_time}
use eks_ami_operator.Go.Error.{Error, Result, ok, err}
use eks_ami_operator.Api.{Spec, Status, Policy}
use eks_ami_operator.World.{
  Config, World, M, Calendar, Nodegroup, Update, Attempt, succeeded, permanent, transient, Env,
  IsRandom, Runs, success, failure, stop, IsRetry,
}
use eks_ami_operator.Examples.Minutely.{minutely}

abbrev pub calendar : Calendar
calendar = record {
  load_location = λ tz. ok tz;
  parse_cron = λ _. ok (λ loc t. minutely t);
  parse_rfc3339 = λ _. ok (pos hour);
  scale_fraction = λ f unit scale. 0;
}

-- A retry that calls once.
abbrev pub error_of : Attempt → Option Error
error_of succeeded = none
error_of (permanent e) = some e
error_of (transient e) = some e

abbrev pub ended : {A : Type 0} → (A × Attempt) × World → (A × Option Error) × World
ended ((a, x), w) = ((a, error_of x), w)

abbrev pub without : String → List String → List String
without f [] = []
without f (g ∷ gs) = if str_eq f g then without f gs else g ∷ without f gs

abbrev pub text_of : Option String → String
text_of none = ""
text_of (some s) = s

abbrev pub node_group : Nodegroup
node_group = record { ami_type = "AL2023_x86_64_STANDARD"; release_version = some "1.31.0-old" }

abbrev pub update : Update
update = record {
  id = some "u";
  status = "InProgress";
  errors = [];
  created_at = none;
  update_type = "VersionUpdate";
}

abbrev pub spec : Spec
spec = record {
  cluster_name = "c";
  node_group_name = "n";
  region = "us-east-1";
  check_interval = "24h";
  auto_upgrade = true;
  paused = false;
  start_after = "";
  schedule_cron = "";
  schedule_timezone = "";
}

abbrev pub status : Status
status = record {
  conditions = [];
  last_checked = zero_time;
  last_upgrade_attempt = zero_time;
  current_ami = "";
  target_ami = "";
  upgrade_status = "";
  last_scheduled_time = zero_time;
  next_scheduled_time = zero_time;
  update_id = "";
  update_status = "";
  update_errors = [];
  last_progress_check = zero_time;
}

abbrev pub policy : Policy
policy = record {
  name = "p";
  deletion_timestamp = none;
  finalizers = "nodegroupupgradepolicy.eks.aws.harsh.dev/finalizer" ∷ [];
  spec = spec;
  status = status;
}

abbrev pub env : Env
env = record {
  calendar = calendar;
  now = λ k. pos (100 * hour + k * second);
  int63n = λ k n. 0;
  intn = λ k n. 0;
  get = λ k name. ok policy;
  update = λ k p. ok p;
  update_status = λ k p. ok p;
  ignore_not_found = λ e. some e;
  contains_finalizer = λ fs f. any (str_eq f) fs;
  add_finalizer = λ fs f. f ∷ fs;
  remove_finalizer = λ fs f. without f fs;
  set_status_condition = λ cs c. c ∷ cs;
  load_default_config = λ k region. ok (record { region = region });
  describe_nodegroup = λ k c cluster ng. ok node_group;
  describe_cluster = λ k c cluster. ok (some "1.31");
  get_parameter = λ k c path. ok (some "{}");
  describe_update = λ k c cluster ng id. ok update;
  update_nodegroup_version = λ k c cluster ng release. ok (some "u");
  describe_regions = λ k c. ok (some "us-east-1" ∷ []);
  to_string = text_of;
  unmarshal_ami = λ raw. ok ("ami", "1.31.0-new");
  retry = λ A b op w. ended (op w);
}

abbrev pub start : World
start = record { policy = policy; tick = 0; calls = []; metrics = [] }

pub ended-Runs :
    {A : Type 0} (op : M (A × Attempt)) (w : World) (r : (A × Attempt) × World)
    → op w ≡ r
    → Runs op w (ended r)
ended-Runs op w ((a, succeeded), v) e = success e
ended-Runs op w ((a, permanent d), v) e = failure e
ended-Runs op w ((a, transient d), v) e = stop e

abbrev pub env-IsRetry : IsRetry env
env-IsRetry = record { runs = λ A b op w. ended-Runs op w (op w) refl }

abbrev pub env-IsRandom : IsRandom env
env-IsRandom = record { int63n-lt = λ k n h. h; intn-lt = λ k n h. h }
