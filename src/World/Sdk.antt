-- ===== src/World/Sdk.antt =====
-- The calls of the AWS SDK, as steps of the state.
use eks_ami_operator.Base.{String, List, Option}
use eks_ami_operator.Go.Error.{Result}
use eks_ami_operator.World.State.{Config, Call, M}
use eks_ami_operator.World.External.{Env, Nodegroup, Update}
use eks_ami_operator.World.Kube.{called}

module _ (env : Env) where
  abbrev pub load_default_config : String → M (Result Config)
  load_default_config region w =
      (env.load_default_config w.tick region, called (Call.load_default_config region) w)

  abbrev pub describe_nodegroup : Config → String → String → M (Result Nodegroup)
  describe_nodegroup c cluster ng w =
      (env.describe_nodegroup w.tick c cluster ng, called (Call.describe_nodegroup c cluster ng) w)

  abbrev pub describe_cluster : Config → String → M (Result (Option String))
  describe_cluster c cluster w =
      (env.describe_cluster w.tick c cluster, called (Call.describe_cluster c cluster) w)

  abbrev pub get_parameter : Config → String → M (Result (Option String))
  get_parameter c path w = (env.get_parameter w.tick c path, called (Call.get_parameter c path) w)

  abbrev pub describe_update : Config → String → String → String → M (Result Update)
  describe_update c cluster ng id w =
      (env.describe_update w.tick c cluster ng id, called (Call.describe_update c cluster ng id) w)

  abbrev pub update_nodegroup_version :
      Config → String → String → String → M (Result (Option String))
  update_nodegroup_version c cluster ng release w = (
    env.update_nodegroup_version w.tick c cluster ng release,
    called (Call.update_nodegroup_version c cluster ng release) w,
  )

  abbrev pub describe_regions : Config → M (Result (List (Option String)))
  describe_regions c w = (env.describe_regions w.tick c, called (Call.describe_regions c) w)
