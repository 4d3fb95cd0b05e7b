-- ===== src/Aws/Update.antt =====
-- DescribeNodegroupUpdate of internal/awsutils/aws_helpers.go.
use eks_ami_operator.Base.{◌&&◌, String, str_eq, List, [], ◌∷◌, Option, if◌then◌else◌}
use eks_ami_operator.Go.Time.{Time}
use eks_ami_operator.Go.Text.{◌<>◌, trim_space}
use eks_ami_operator.Go.Error.{Result, ok, err}
use eks_ami_operator.World.{Config, Env, M, ◌>>=◌, pure, ErrorDetail, Update}
use eks_ami_operator.World.Sdk

-- UpdateOutcome
pub record UpdateOutcome : Type 0 where
  pub id : String
  pub status : String
  pub errors : List String
  pub created_at : Option Time
  pub outcome_type : String

module _ (env : Env) where
  abbrev code_of : ErrorDetail → String
  code_of e = trim_space e.error_code

  abbrev message_of : ErrorDetail → String
  message_of e = trim_space (env.to_string e.error_message)

  -- The text of one error.
  abbrev pub error_text : ErrorDetail → String
  error_text e = (if str_eq (code_of e) "" then "Unknown" else code_of e) <> ": " <> message_of e

  -- The loop over u.Errors.
  unfoldable pub error_texts : List ErrorDetail → List String
  error_texts [] = []
  error_texts (e ∷ es) =
      if str_eq (code_of e) "" && str_eq (message_of e) ""
      then error_texts es
      else error_text e ∷ error_texts es

  abbrev to_outcome : Result Update → Result UpdateOutcome
  to_outcome (err e) = err e
  to_outcome (ok u) = ok (record {
    id = env.to_string u.id;
    status = u.status;
    errors = error_texts u.errors;
    created_at = u.created_at;
    outcome_type = u.update_type;
  })

  -- DescribeNodegroupUpdate
  unfoldable pub describe_nodegroup_update :
      Config → String → String → String → M (Result UpdateOutcome)
  describe_nodegroup_update c cluster nodegroup update_id = do
    u ← Sdk.describe_update env c cluster nodegroup update_id
    pure (to_outcome u)
