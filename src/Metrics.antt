-- ===== src/Metrics.antt =====
-- internal/metrics/metrics.go: the metric vectors, and the writes to them. A write is kept as a
-- value, newest first. A gauge's value is a float64, which is kept by where it comes from.
pub mod Documented
pub mod Reading
use eks_ami_operator.Base.{ℕ, ◌≡◌, Bool, true, false, String, List, [], ◌∷◌, length}
use eks_ami_operator.Go.Time.{Time, Duration}

-- The eight vectors that the package registers.
pub data Vector : Type 0 where
  outdated_node_groups : Vector
  upgrade_attempts : Vector
  compliance_status : Vector
  last_checked_timestamp : Vector
  deleted_policies : Vector
  next_run_seconds : Vector
  update_status : Vector
  update_inflight_seconds : Vector

-- The number that a gauge is set to.
pub data Value : Type 0 where
  number : ℕ → Value
  seconds : Duration → Value
  unix : Time → Value

-- v.WithLabelValues(labels).Set(x) and v.WithLabelValues(labels).Inc()
pub data Write : Type 0 where
  set : Vector → List String → Value → Write
  inc : Vector → List String → Write

-- The name of a vector, and the names of its labels.
unfoldable pub name : Vector → String
name outdated_node_groups = "eks_ami_operator_outdated_nodegroups"
name upgrade_attempts = "eks_ami_operator_upgrade_attempts_total"
name compliance_status = "eks_ami_operator_compliance_status"
name last_checked_timestamp = "eks_ami_operator_last_checked_timestamp_seconds"
name deleted_policies = "eks_ami_operator_deleted_policies_total"
name next_run_seconds = "eks_ami_operator_next_run_seconds"
name update_status = "eks_ami_operator_update_status"
name update_inflight_seconds = "eks_ami_operator_update_inflight_seconds"

abbrev pub label_names : Vector → List String
label_names outdated_node_groups = "cluster" ∷ []
label_names upgrade_attempts = "cluster" ∷ "nodegroup" ∷ "result" ∷ []
label_names compliance_status = "cluster" ∷ "nodegroup" ∷ []
label_names last_checked_timestamp = "cluster" ∷ "nodegroup" ∷ []
label_names deleted_policies = "cluster" ∷ "nodegroup" ∷ []
label_names next_run_seconds = "cluster" ∷ "nodegroup" ∷ []
label_names update_status = "cluster" ∷ "nodegroup" ∷ "status" ∷ []
label_names update_inflight_seconds = "cluster" ∷ "nodegroup" ∷ []

-- NewCounterVec or NewGaugeVec
abbrev pub is_counter : Vector → Bool
is_counter upgrade_attempts = true
is_counter deleted_policies = true
is_counter outdated_node_groups = false
is_counter compliance_status = false
is_counter last_checked_timestamp = false
is_counter next_run_seconds = false
is_counter update_status = false
is_counter update_inflight_seconds = false
