-- ===== src/Api.antt =====
-- api/v1alpha1/nodegroupupgradepolicy_types.go: the NodeGroupUpgradePolicy resource and its
-- defaulting webhook. Of the object's metadata the name, the deletion timestamp and the finalizers
-- are kept, which are all that the sources read.
pub mod Store
pub mod DeepCopy
pub mod Copied
pub mod Apart
use eks_ami_operator.Base.{Bool, ◌&&◌, not, String, str_eq, Option, List, if◌then◌else◌}
use eks_ami_operator.Go.Time.{Time}
use eks_ami_operator.Go.Text.{◌<>◌}
use eks_ami_operator.Go.Error.{Result, ok, err, plain}

-- NodeGroupUpgradePolicySpec
pub record Spec : Type 0 where
  pub cluster_name : String
  pub node_group_name : String
  pub region : String
  pub check_interval : String
  pub auto_upgrade : Bool
  pub paused : Bool
  pub start_after : String
  pub schedule_cron : String
  pub schedule_timezone : String

-- metav1.Condition
pub record Condition : Type 0 where
  pub condition_type : String
  pub status : String
  pub reason : String
  pub message : String
  pub last_transition_time : Time

-- NodeGroupUpgradePolicyStatus
pub record Status : Type 0 where
  pub conditions : List Condition
  pub last_checked : Time
  pub last_upgrade_attempt : Time
  pub current_ami : String
  pub target_ami : String
  pub upgrade_status : String
  pub last_scheduled_time : Time
  pub next_scheduled_time : Time
  pub update_id : String
  pub update_status : String
  pub update_errors : List String
  pub last_progress_check : Time

-- NodeGroupUpgradePolicy
pub record Policy : Type 0 where
  pub name : String
  pub deletion_timestamp : Option Time
  pub finalizers : List String
  pub spec : Spec
  pub status : Status

-- runtime.Object: a policy, or an object of another type, with the name of the type.
pub data Object : Type 0 where
  policy : Policy → Object
  other : String → Object

-- The two assignments of Default.
unfoldable pub default_interval : Spec → Spec
default_interval s =
    if str_eq s.schedule_cron "" && str_eq s.check_interval ""
    then record s { check_interval = "24h" }
    else s

unfoldable pub default_timezone : Spec → Spec
default_timezone s =
    if not (str_eq s.schedule_cron "") && str_eq s.schedule_timezone ""
    then record s { schedule_timezone = "UTC" }
    else s

abbrev pub default_spec : Spec → Spec
default_spec s = default_timezone (default_interval s)

-- Default
unfoldable pub default : Object → Result Object
default (policy p) = ok (policy (record p { spec = default_spec p.spec }))
default (other t) = err (plain ("expected a NodeGroupUpgradePolicy but got " <> t))
