-- ===== src/Controller/Watching.antt =====
-- An update in flight over any number of reconciles of
-- internal/controller/nodegroupupgradepolicy_controller.go.
use eks_ami_operator.Base.{◌≡◌, ◌∙◌, refl, arith, true, String}
use eks_ami_operator.Api.{Policy}
use eks_ami_operator.World.{Env, IsRetry, World}
use eks_ami_operator.Upgrade.{is_tracked}
use eks_ami_operator.Upgrade.Process.{StartsNone}
use eks_ami_operator.Controller.Schedule.{is_in_flight}
use eks_ami_operator.Controller.Reconcile.{reconcile}
use eks_ami_operator.Controller.Polling.{Accepts, IsPolled}
use eks_ami_operator.Controller.Passing.{Answers, IsPolled-IsLate, aws_work-Polls}
use eks_ami_operator.Controller.Following.{Tracks, Watch, reconcile_follows}

-- Any number of reconciles that read such a policy, from the state `w`, while the update `id` runs.
pub data Watched (id : String) (w : World) : World → Type 1 where
  none_yet : Watched id w w
  once_more :
      {v : World}
      → Watched id w v
      → (env : Env) → IsRetry env
      → Answers env id
      → Accepts env
      → (name : String) → Watch env name v
      → Watched id w (reconcile env name v).1

in_flight-is_tracked : (p : Policy) → is_in_flight p ≡ true → is_tracked p.status ≡ true
unfolding is_in_flight
in_flight-is_tracked p h = ground arith

Watch-IsPolled :
    (env : Env)
    → IsRetry env
    → (id : String) → Answers env id
    → Accepts env
    → (name : String) (w : World) → Tracks id w
    → Watch env name w
    → IsPolled id w (reconcile env name w)
Watch-IsPolled env documented id answers server name w t x =
    reconcile_follows (IsPolled-IsLate id) id env (aws_work-Polls env documented id answers server)
      name w t x

pub Watched-Tracks :
    {id : String} {w v : World} → Tracks id w → Watched id w v → Tracks id v × StartsNone w v
Watched-Tracks t none_yet = (t, refl)
Watched-Tracks {id} {w} t (once_more {v = v} before env documented answers server name x) =
    let (here, quiet) = Watched-Tracks t before in
    let (_, flies, same, none_started) =
      Watch-IsPolled env documented id answers server name v here x in
    ((in_flight-is_tracked _ flies, same), none_started ∙ quiet)
