-- ===== src/Examples/Commanding.antt =====
-- Tests of the command.
use eks_ami_operator.Base.{
  ◌≡◌, refl, true, false, String, str_eq, List, [], ◌∷◌, Option, none, some,
}
use eks_ami_operator.Go.Error.{Error, plain, ok}
use eks_ami_operator.Go.Flag.{Parse, classify, parse_bool}
use eks_ami_operator.Cmd.Flags.{Flags, LibraryFlag, defaults, parse_flags}
use eks_ami_operator.Cmd.Servers.{
  TlsConfig, webhook_options, metrics_options, with_authentication_and_authorization,
}
use eks_ami_operator.Cmd.Manager.{
  Step, System, next, exit, process, main, run_manager, setup_with_manager,
  setup_webhook_with_manager, setup_webhooks, serve,
}
use eks_ami_operator.Cmd.FlagSet.{command_line, parse_flags-command_line}
use eks_ami_operator.Cmd.Asked.{asks}
use eks_ami_operator.Cmd.Secure.{configured, servers_refuse_http2, metrics_protected}
use eks_ami_operator.Cmd.Order.{plan, Ends, process-Ends}

-- The flag of client-go, and no other.
abbrev library : String → Option LibraryFlag
library name = elim (str_eq name "kubeconfig") [
  | true ↦ some (record { is_boolean = false; accepts = λ v. ok tt })
  | false ↦ none
]

-- A system on which the health checks cannot be added.
abbrev is_healthz : Step → Option Error
is_healthz (Step.add_healthz_check _) = some (plain "unable to add checks")
is_healthz _ = none

abbrev unhealthy : System
unhealthy = record { answer = λ log s. is_healthz s; getenv = λ name. "false"; library = library }

abbrev healthy : System
healthy = record { answer = λ log s. none; getenv = λ name. ""; library = library }

-- The arguments of config/manager/manager.yaml, with a bind address.
abbrev arguments : List String
arguments =
    "--leader-elect" ∷ "--health-probe-bind-address=:8081" ∷ "--metrics-bind-address" ∷ ":8443" ∷ []

abbrev flags : Flags
flags = record defaults { enable_leader_election = true; metrics_addr = ":8443" }

arguments-parsed : parse_flags library arguments ≡ Parse.parsed flags []
unfolding parse_flags classify parse_bool
arguments-parsed = refl

runs : (process healthy arguments []).0 ≡ next
unfolding process main run_manager setup_with_manager setup_webhook_with_manager setup_webhooks
    serve parse_flags classify parse_bool
runs = refl

stops : (process unhealthy arguments []).0 ≡ exit 1
unfolding process main run_manager setup_with_manager setup_webhook_with_manager setup_webhooks
    serve parse_flags classify parse_bool
stops = refl

help : (process healthy ("-h" ∷ []) []).0 ≡ exit 0
unfolding process main parse_flags classify
help = refl

unknown_flag : (process healthy ("-verbose" ∷ []) []).0 ≡ exit 2
unfolding process main parse_flags classify
unknown_flag = refl

process-Ends_example :
    Ends unhealthy
      (plan unhealthy (parse_flags library arguments)).0
      (plan unhealthy (parse_flags library arguments)).1
      []
      (process unhealthy arguments [])
process-Ends_example = process-Ends unhealthy arguments

parse_flags-command_line_example :
    parse_flags library (command_line flags ("-x" ∷ [])) ≡ Parse.parsed flags ("-x" ∷ [])
parse_flags-command_line_example = parse_flags-command_line library flags ("-x" ∷ [])

-- A server that offers HTTP/2.
abbrev offered : TlsConfig
offered = record { next_protos = "h2" ∷ [] }

no_http2 : asks "enable-http2" arguments ≡ false
unfolding classify
no_http2 = refl

no_insecure : asks "metrics-secure" arguments ≡ false
unfolding classify
no_insecure = refl

servers_refuse_http2_example :
    ((configured (metrics_options flags).tls_opts offered).next_protos ≡ "http/1.1" ∷ [])
    × ((configured (webhook_options flags).tls_opts offered).next_protos ≡ "http/1.1" ∷ [])
servers_refuse_http2_example =
    servers_refuse_http2 library arguments flags [] arguments-parsed no_http2 offered

metrics_protected_example :
    ((metrics_options flags).secure_serving ≡ true)
    × ((metrics_options flags).filter_provider ≡ some with_authentication_and_authorization)
    × ((metrics_options flags).bind_address ≡ ":8443")
metrics_protected_example =
    metrics_protected library arguments flags [] arguments-parsed no_insecure
