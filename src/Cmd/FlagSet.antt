-- ===== src/Cmd/FlagSet.antt =====
-- Flags that are written on the command line are read back.
use eks_ami_operator.Base.{◌≡◌, refl, Bool, true, false, String, if◌then◌else◌, List, ◌∷◌, Option}
use eks_ami_operator.Go.Flag.{Parse, classify, parse_bool, parse}
use eks_ami_operator.Cmd.Flags.{Flags, LibraryFlag, flag_set, parse_flags}

abbrev switch : String → String → Bool → String
switch on off b = if b then on else off

-- The arguments that spell the flags: a text is an argument of its own, so that it may be empty or
-- begin with a minus.
abbrev pub command_line : Flags → List String → List String
command_line f operands =
    "--metrics-bind-address"
    ∷ f.metrics_addr
    ∷ "--health-probe-bind-address"
    ∷ f.probe_addr
    ∷ switch "--leader-elect" "--leader-elect=false" f.enable_leader_election
    ∷ switch "--metrics-secure=true" "--metrics-secure=F" f.secure_metrics
    ∷ "-webhook-cert-path"
    ∷ f.webhook_cert_path
    ∷ "-webhook-cert-name"
    ∷ f.webhook_cert_name
    ∷ "-webhook-cert-key"
    ∷ f.webhook_cert_key
    ∷ "-metrics-cert-path"
    ∷ f.metrics_cert_path
    ∷ "-metrics-cert-name"
    ∷ f.metrics_cert_name
    ∷ "-metrics-cert-key"
    ∷ f.metrics_cert_key
    ∷ switch "-enable-http2" "-enable-http2=0" f.enable_http2
    ∷ "--"
    ∷ operands

module _ (library : String → Option LibraryFlag) where
  spelled :
      (f : Flags) (leader secure http2 : Bool) (operands : List String)
      → let g = record f {
        enable_leader_election = leader;
        secure_metrics = secure;
        enable_http2 = http2;
      } in
        parse_flags library (command_line g operands) ≡ Parse.parsed g operands
  unfolding parse_flags flag_set parse classify parse_bool
  spelled f true true true operands = refl
  spelled f true true false operands = refl
  spelled f true false true operands = refl
  spelled f true false false operands = refl
  spelled f false true true operands = refl
  spelled f false true false operands = refl
  spelled f false false true operands = refl
  spelled f false false false operands = refl

  -- Any flags, with any operands, can be written on the command line: what is read from it is these
  -- flags and these operands.
  pub parse_flags-command_line :
      (f : Flags) (operands : List String)
      → parse_flags library (command_line f operands) ≡ Parse.parsed f operands
  parse_flags-command_line f operands =
      spelled f f.enable_leader_election f.secure_metrics f.enable_http2 operands
