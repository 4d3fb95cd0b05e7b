-- ===== src/Examples/Parsing.antt =====
-- Tests of the texts and the parsers of Go's standard library.
use eks_ami_operator.Base.{ℕ, ◌+◌, ◌-◌, ◌*◌, ◌/◌, ◌≡◌, refl}
use eks_ami_operator.Base.Int.{pos, negsuc}
use eks_ami_operator.Go.Time.{second, minute, hour}
use eks_ami_operator.Go.Text.{trim_space, to_upper, trim_prefix}
use eks_ami_operator.Go.Error.{plain, ok, err}
use eks_ami_operator.Go.Scan.{sscanf_minor}
use eks_ami_operator.Go.ParseDuration.{parse_duration}

trims : trim_space " \t0 2 * * * " ≡ "0 2 * * *"
unfolding trim_space
trims = refl

uppers : to_upper "AL2_x86_64" ≡ "AL2_X86_64"
unfolding to_upper
uppers = refl

prefixes : trim_prefix "v1.33" "v" ≡ "1.33"
unfolding trim_prefix
prefixes = refl

scans : sscanf_minor "1.33.x" ≡ ok (pos 33)
unfolding sscanf_minor
scans = refl

scans_no_minor : sscanf_minor "1" ≡ err (plain "unexpected EOF")
unfolding sscanf_minor
scans_no_minor = refl

abbrev no_fraction : ℕ → ℕ → ℕ → ℕ
no_fraction f unit scale = f * unit / scale

parses_day : parse_duration no_fraction "24h" ≡ ok (pos (24 * hour))
unfolding parse_duration
parses_day = refl

parses_mixed : parse_duration no_fraction "-1h30.5m" ≡ ok (negsuc (90 * minute + 30 * second - 1))
unfolding parse_duration
parses_mixed = refl

rejects_day : parse_duration no_fraction "1d" ≡ err (plain "time: invalid duration")
unfolding parse_duration
rejects_day = refl
