-- ===== src/Examples/Following.antt =====
-- Tests of a reconcile that polls an update.
use eks_ami_operator.Base.{◌≡◌, true, refl, sym, ap, false, inl, inr, some}
use eks_ami_operator.Go.Error.{Result, ok, err}
use eks_ami_operator.Api.{Policy}
use eks_ami_operator.World.{Env, IsRetry, Nodegroup, World}
use eks_ami_operator.Aws.{is_al2}
use eks_ami_operator.Go.Text.{to_upper, trim_space}
use eks_ami_operator.Controller.{reconcile}
use eks_ami_operator.Controller.Polling.{Accepts}
use eks_ami_operator.Controller.Passing.{Answers}
use eks_ami_operator.Finalizer.{has}
use eks_ami_operator.World.{Update}
use eks_ami_operator.Controller.Following.{Watch}
use eks_ami_operator.Controller.Completed.{Finishes}
use eks_ami_operator.Controller.Started.{Takes, Watched-StartsOne}
use eks_ami_operator.Upgrade.Process.{StartsOne}
use eks_ami_operator.World.{Config}
use eks_ami_operator.Base.{none, str_ne}
use eks_ami_operator.Aws.{AwsClients}
use eks_ami_operator.Controller.{requeue, poll_delay, is_in_flight, run_upgrade}
use eks_ami_operator.Controller.Watching.{Watched, none_yet, once_more}
use eks_ami_operator.Examples.{env, start, policy, spec, status, node_group, update, ended-Runs}

abbrev in_flight : Policy
in_flight = record policy {
  spec = record spec { schedule_cron = "* * * * *" };
  status = record status { upgrade_status = "InProgress"; update_id = "u" };
}

-- An API server that holds the policy.
abbrev serving : Policy → Env
serving p = record env { get = λ k name. ok p }

serving-IsRetry : (p : Policy) → IsRetry (serving p)
serving-IsRetry p = record { runs = λ A b op w. ended-Runs op w (op w) refl }

serving-Accepts : (p : Policy) → Accepts (serving p)
serving-Accepts p = record { accepts = λ k q. (q, refl, refl) }

node_group_modern : is_al2 node_group.ami_type ≡ false
unfolding is_al2 to_upper
node_group_modern = refl

same_type :
    (ng : Nodegroup)
    → ◌≡◌ {A = Result Nodegroup} (ok node_group) (ok ng)
    → node_group.ami_type ≡ ng.ami_type
same_type ng e = ap (λ r. elim r [ ok x ↦ x.ami_type | err _ ↦ ng.ami_type ]) e

serving-Answers : (p : Policy) → Answers (serving p) "u"
serving-Answers p = record {
  ssm = record {
    parameter = λ k c path. (some "{}", refl);
    release = λ raw. (("ami", "1.31.0-new"), refl);
  };
  cluster = λ k c name. (some "1.31", refl);
  modern = λ k c cluster name ng e. rw (sym (same_type ng e)) node_group_modern;
  running = λ k c cluster name. refl;
}

-- A state behind an earlier reconcile, which left the policy in flight.
abbrev left : World
left = record start { policy = in_flight }

-- The policy as it is read behind the state `w`.
abbrev read_behind : World → Policy
read_behind w = record in_flight { status = w.policy.status }

watch :
    (e : Env) (w : World)
    → e.get w.tick "p" ≡ ok (read_behind w)
    → has e in_flight ≡ true
    → Watch e "p" w
unfolding trim_space
watch e w read kept = record {
  policy = read_behind w;
  read = read;
  stored = refl;
  living = refl;
  kept = kept;
  unpaused = refl;
  started = inl refl;
  cooled = inl refl;
}

-- The state behind one reconcile more.
abbrev polled : World → World
polled w = (reconcile (serving (read_behind w)) "p" w).1

once : (w : World) → Watched "u" w (polled w)
once w =
    let p = read_behind w in
    once_more none_yet (serving p) (serving-IsRetry p) (serving-Answers p) (serving-Accepts p) "p"
      (watch (serving p) w refl refl)

abbrev later : Policy
later = read_behind (polled left)

-- In the end EKS says that the update failed.
abbrev failed_update : Update
failed_update = record update { status = "Failed" }

abbrev ending : Policy → Env
ending p = record (serving p) { describe_update = λ k c cluster name id. ok failed_update }

ending-IsRetry : (p : Policy) → IsRetry (ending p)
ending-IsRetry p = record { runs = λ A b op w. ended-Runs op w (op w) refl }

ending-Accepts : (p : Policy) → Accepts (ending p)
ending-Accepts p = record { accepts = λ k q. (q, refl, refl) }

ending-Finishes : (p : Policy) → Finishes (ending p) "u" "Failed"
ending-Finishes p = record {
  ssm = record {
    parameter = λ k c path. (some "{}", refl);
    release = λ raw. (("ami", "1.31.0-new"), refl);
  };
  eks = record { nodegroup = λ k c cluster name. (node_group, refl) };
  config = λ k region. (record { region = region }, refl);
  cluster = λ k c name. (some "1.31", refl);
  modern = λ k c cluster name ng e. rw (sym (same_type ng e)) node_group_modern;
  done = λ k c cluster name. (failed_update, refl, inr (inl (refl, refl)));
}

-- A policy that asks for updates, and the state behind the run that starts one.
abbrev asked : Policy
asked = record policy { spec = record spec { auto_upgrade = true } }

abbrev asking : World
asking = record start { policy = asked }

serving-Takes : Takes (serving asked) "u"
serving-Takes = record {
  takes = λ k c cluster name release. (some "u", refl, refl);
  named = str_ne "u" "" refl;
}

abbrev config : Config
config = record { region = "us-east-1" }

abbrev clients : AwsClients
clients = record { eks = config; ssm = config; ec2 = config }

abbrev begun : World
begun = (run_upgrade (serving asked) clients node_group "1.31.0-new" asking).1

abbrev last : Policy
last = read_behind (polled begun)

Watched-StartsOne_example :
    let (r, u) = reconcile (ending last) "p" (polled begun) in
    ((run_upgrade (serving asked) clients node_group "1.31.0-new" asking).0
      ≡ (requeue poll_delay, none))
    × (r.1 ≡ none)
    × (u.policy.status.upgrade_status ≡ "Failed")
    × (is_in_flight u.policy ≡ false)
    × StartsOne asked config "1.31.0-new" asking u
Watched-StartsOne_example =
    Watched-StartsOne (serving asked) (serving-Accepts asked) "u" serving-Takes clients node_group
      "1.31.0-new" asking (polled begun) (refl, str_ne "1.31.0-old" "1.31.0-new" refl, refl)
      (once begun) (ending last) (ending-IsRetry last) "Failed" (ending-Finishes last)
      (ending-Accepts last) "p" (watch (ending last) (polled begun) refl refl)
