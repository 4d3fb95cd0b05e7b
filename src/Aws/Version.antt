-- ===== src/Aws/Version.antt =====
-- internal/awsutils/version.go.
use eks_ami_operator.Base.{String}
use eks_ami_operator.Base.Int.{ℤ}
use eks_ami_operator.Go.Error.{Result, ok, err, wrapped}
use eks_ami_operator.Go.Scan.{sscanf_minor}

abbrev parsed : Result ℤ → Result ℤ
parsed (ok minor) = ok minor
parsed (err e) = err (wrapped "parse eks version" e)

-- eksMinor
unfoldable pub eks_minor : String → Result ℤ
eks_minor version = parsed (sscanf_minor version)
