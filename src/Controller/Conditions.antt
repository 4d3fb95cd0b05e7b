-- ===== src/Controller/Conditions.antt =====
-- internal/controller/conditions.go.
use eks_ami_operator.Base.{String}
use eks_ami_operator.Api.{Condition}
use eks_ami_operator.World.{Env, M, ◌>>=◌, set_status}
use eks_ami_operator.World.Clock.{now}

module _ (env : Env) where
  -- SetCondition, on policy.Status.Conditions
  unfoldable pub set_condition : String → String → String → String → M (Unit {0})
  set_condition condition_type status reason message = do
    t ← now env
    let c : Condition = record {
      condition_type = condition_type;
      status = status;
      reason = reason;
      message = message;
      last_transition_time = t;
    }
    set_status (λ s. record s { conditions = env.set_status_condition s.conditions c })

  -- SetAMIComplianceCondition
  abbrev pub set_ami_compliance_condition : String → String → String → M (Unit {0})
  set_ami_compliance_condition status reason message =
      set_condition "AMICompliance" status reason message

  -- SetUpgradeCondition
  abbrev pub set_upgrade_condition : String → String → String → M (Unit {0})
  set_upgrade_condition status reason message =
      set_condition "UpgradeInProgress" status reason message
