-- ===== src/Controller/Metered.antt =====
-- The metrics that a reconcile of internal/controller/nodegroupupgradepolicy_controller.go writes.
use eks_ami_operator.Base.{List, String, false}
use eks_ami_operator.World.Kube
use eks_ami_operator.World.Keeps.{Keeps}
use eks_ami_operator.World.{Env}
use eks_ami_operator.World.Metered.{Metered, Metered-Free, received-metrics}
use eks_ami_operator.Metrics.{Write}
use eks_ami_operator.Controller.Rules.{Rules}
use eks_ami_operator.Controller.Freed.{Free-Rules}

pub get-Keeps :
    {ws : List Write} (env : Env) (name : String) → Keeps (Metered false ws) (Kube.get env name)
get-Keeps env name = record { at = λ w h. rw (received-metrics (env.get w.tick name) _) h }

pub Metered-Rules : {ws : List Write} (env : Env) → Rules env (Metered false ws)
Metered-Rules env = Free-Rules env (Metered-Free env) (record {
  sent = record { at = λ w h. rw (received-metrics (env.update w.tick w.policy) _) h };
  finalizers = λ fs w h. h;
})
