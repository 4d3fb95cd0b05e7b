-- ===== src/Controller/Documented.antt =====
-- The metrics that a reconcile of internal/controller/nodegroupupgradepolicy_controller.go writes,
-- against what internal/metrics says of them.
use eks_ami_operator.Base.{List, String}
use eks_ami_operator.World.{Env, IsRetry, World}
use eks_ami_operator.Metrics.Reading.{IsLit, Grows-IsLit}
use eks_ami_operator.Metrics.Documented.{AllDocumented, Grows-AllDocumented, same}
use eks_ami_operator.Controller.Reconcile.{reconcile}
use eks_ami_operator.Controller.Rules.{reconcile-Keeps}
use eks_ami_operator.Controller.Metered.{Metered-Rules, get-Keeps}

-- Every write of a reconcile to the metrics is as documented: WithLabelValues is given as many values
-- as the vector has labels, so that it does not panic, a counter is never set, and the results and
-- lifecycle states among the labels are the ones that the comments list. The writes before are
-- taken to be so, and backoff.Retry to run as documented.
pub reconcile-AllDocumented :
    (env : Env)
    → IsRetry env
    → (policy_name : String) (w : World) → AllDocumented w.metrics
    → AllDocumented (reconcile env policy_name w).1.metrics
reconcile-AllDocumented env documented policy_name w h =
    Grows-AllDocumented
      ((reconcile-Keeps env documented (Metered-Rules env) policy_name
          (get-Keeps env policy_name)).at
        w same)
      h

-- A lifecycle state of a node group that reads 1 still reads 1 behind every reconcile, whatever the
-- reconcile does, if backoff.Retry runs as documented: it is never reset.
pub reconcile-IsLit :
    (env : Env)
    → IsRetry env
    → (policy_name : String) (w : World) (labels : List String) → IsLit labels w.metrics
    → IsLit labels (reconcile env policy_name w).1.metrics
reconcile-IsLit env documented policy_name w labels h =
    Grows-IsLit labels
      ((reconcile-Keeps env documented (Metered-Rules env) policy_name
          (get-Keeps env policy_name)).at
        w same)
      h
