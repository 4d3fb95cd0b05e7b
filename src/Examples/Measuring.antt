-- ===== src/Examples/Measuring.antt =====
-- Tests of the metrics.
use eks_ami_operator.Base.{refl, List, [], ◌∷◌}
use eks_ami_operator.Metrics.{Write, number, set, update_status, outdated_node_groups}
use eks_ami_operator.Metrics.Documented.{AllDocumented}
use eks_ami_operator.Metrics.Reading.{IsLit}
use eks_ami_operator.World.{Config, World}
use eks_ami_operator.Aws.{AwsClients}
use eks_ami_operator.Upgrade.{process_upgrade}
use eks_ami_operator.Upgrade.Lit.{two_states-IsLit}
use eks_ami_operator.Upgrade.Counted.{AtMostOne}
use eks_ami_operator.Controller.{reconcile, run_upgrade}
use eks_ami_operator.Controller.Documented.{reconcile-AllDocumented}
use eks_ami_operator.Controller.Counted.{run_upgrade-AtMostOne}
use eks_ami_operator.Examples.{env, start, policy, status, node_group, env-IsRetry}

abbrev config : Config
config = record { region = "us-east-1" }

abbrev clients : AwsClients
clients = record { eks = config; ssm = config; ec2 = config }

-- Three node groups of the cluster were counted, and the node group was seen idle.
abbrev seen : List Write
seen =
    set outdated_node_groups ("c" ∷ []) (number 3)
    ∷ set update_status ("c" ∷ "n" ∷ "idle" ∷ []) (number 1)
    ∷ []

abbrev before : World
before = record start { metrics = seen }

reconcile-AllDocumented_example : AllDocumented (reconcile env "p" before).1.metrics
reconcile-AllDocumented_example =
    reconcile-AllDocumented env env-IsRetry "p" before (refl, (refl, tt))

run_upgrade-AtMostOne_example :
    AtMostOne ("c" ∷ []) (run_upgrade env clients node_group "1.31.0-new" before).1.metrics
run_upgrade-AtMostOne_example = run_upgrade-AtMostOne env clients node_group "1.31.0-new" before

abbrev in_flight : World
in_flight = record start {
  policy = record policy {
    status = record status { upgrade_status = "InProgress"; update_id = "u" };
  };
}

two_states-IsLit_example :
    IsLit
      ("c" ∷ "n" ∷ "idle" ∷ [])
      (process_upgrade env "1.31.0-old" "1.31.0-new" config in_flight).1.metrics
    × IsLit
        ("c" ∷ "n" ∷ "in_progress" ∷ [])
        (process_upgrade env "1.31.0-old" "1.31.0-new" config in_flight).1.metrics
two_states-IsLit_example = two_states-IsLit env "1.31.0-old" "1.31.0-new" config in_flight refl refl
