-- ===== src/Aws/Clients.antt =====
-- pkg/awsclient/awsclient.go.
use eks_ami_operator.Base.{String}
use eks_ami_operator.Go.Error.{Result, ok, err, wrapped}
use eks_ami_operator.World.{Config, Env, M, ◌>>=◌, pure}
use eks_ami_operator.World.Sdk

-- AWSClients: each service client is made from the loaded configuration.
pub record AwsClients : Type 0 where
  pub eks : Config
  pub ssm : Config
  pub ec2 : Config

abbrev pub from_config : Result Config → Result AwsClients
from_config (ok cfg) = ok (record { eks = cfg; ssm = cfg; ec2 = cfg })
from_config (err e) = err (wrapped "failed to load AWS config" e)

-- NewAWSClients
unfoldable pub new_aws_clients : Env → String → M (Result AwsClients)
new_aws_clients env region = do cfg ← Sdk.load_default_config env region; pure (from_config cfg)
