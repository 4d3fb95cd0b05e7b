-- ===== src/Cmd/Flags.antt =====
-- The flags of cmd/main.go, lines 58 to 92.
use eks_ami_operator.Base.{
  Bool, true, false, String, if◌then◌else◌, List, [], ◌∷◌, Option, none, some,
}
use mathlib.Core.Option
use eks_ami_operator.Go.Error.{Result, ok, err}
use eks_ami_operator.Go.Flag.{Flag, Parse, text, find, parse}

-- The variables that the flags are read into.
pub record Flags : Type 0 where
  pub metrics_addr : String
  pub metrics_cert_path : String
  pub metrics_cert_name : String
  pub metrics_cert_key : String
  pub webhook_cert_path : String
  pub webhook_cert_name : String
  pub webhook_cert_key : String
  pub enable_leader_election : Bool
  pub probe_addr : String
  pub secure_metrics : Bool
  pub enable_http2 : Bool

abbrev pub defaults : Flags
defaults = record {
  metrics_addr = "0";
  metrics_cert_path = "";
  metrics_cert_name = "tls.crt";
  metrics_cert_key = "tls.key";
  webhook_cert_path = "";
  webhook_cert_name = "tls.crt";
  webhook_cert_key = "tls.key";
  enable_leader_election = false;
  probe_addr = ":8081";
  secure_metrics = true;
  enable_http2 = false;
}

-- A flag that a library adds to the command line (kubeconfig, and those of opts.BindFlags): whether
-- it needs no argument, and whether it accepts a value. It sets none of the variables above.
pub record LibraryFlag : Type 0 where
  pub is_boolean : Bool
  pub accepts : String → Result (Unit {0})

unfoldable pub library_flag : LibraryFlag → Flag Flags
library_flag l =
    if l.is_boolean
    then Flag.boolean (λ _ s. s)
    else Flag.valued (λ v s. elim (l.accepts v) [ ok _ ↦ ok s | err e ↦ err e ])

-- The calls of StringVar and BoolVar.
unfoldable pub own_flags : List (String × Flag Flags)
own_flags =
    ("metrics-bind-address", text λ v s. record s { metrics_addr = v })
    ∷ ("health-probe-bind-address", text λ v s. record s { probe_addr = v })
    ∷ ("leader-elect", Flag.boolean λ b s. record s { enable_leader_election = b })
    ∷ ("metrics-secure", Flag.boolean λ b s. record s { secure_metrics = b })
    ∷ ("webhook-cert-path", text λ v s. record s { webhook_cert_path = v })
    ∷ ("webhook-cert-name", text λ v s. record s { webhook_cert_name = v })
    ∷ ("webhook-cert-key", text λ v s. record s { webhook_cert_key = v })
    ∷ ("metrics-cert-path", text λ v s. record s { metrics_cert_path = v })
    ∷ ("metrics-cert-name", text λ v s. record s { metrics_cert_name = v })
    ∷ ("metrics-cert-key", text λ v s. record s { metrics_cert_key = v })
    ∷ ("enable-http2", Flag.boolean λ b s. record s { enable_http2 = b })
    ∷ []

module _ (library : String → Option LibraryFlag) where
  -- The command line: these flags, and those of the libraries.
  unfoldable pub flag_set : String → Option (Flag Flags)
  unfolding library_flag
  flag_set name = elim (find name own_flags) [
    | some f ↦ some f
    | none ↦ Option.map library_flag (library name)
  ]

  -- flag.Parse, over os.Args[1:]
  unfoldable pub parse_flags : List String → Parse Flags
  unfolding flag_set own_flags find library_flag parse
  parse_flags args = parse flag_set args defaults
