-- ===== src/Cmd/Servers.antt =====
-- The options of the webhook server, the metrics server and the manager: cmd/main.go, lines 94
-- to 175.
use eks_ami_operator.Base.{
  Bool, not, String, str_eq, if◌then◌else◌, List, [], ◌∷◌, Option, none, some,
}
use eks_ami_operator.Cmd.Flags.{Flags}

-- crypto/tls.Config, the field that is set.
pub record TlsConfig : Type 0 where
  pub next_protos : List String

-- webhook.Options, the fields that are set.
pub record WebhookOptions : Type 0 where
  pub tls_opts : List (TlsConfig → TlsConfig)
  pub cert_dir : String
  pub cert_name : String
  pub key_name : String

-- The one filter provider of the sources.
pub data FilterProvider : Type 0 where
  with_authentication_and_authorization : FilterProvider

-- metricsserver.Options, the fields that are set.
pub record MetricsOptions : Type 0 where
  pub bind_address : String
  pub secure_serving : Bool
  pub tls_opts : List (TlsConfig → TlsConfig)
  pub filter_provider : Option FilterProvider
  pub cert_dir : String
  pub cert_name : String
  pub key_name : String

-- ctrl.Options, the fields that are set; the scheme is the one of Cmd.Manager.
pub record ManagerOptions : Type 0 where
  pub metrics : MetricsOptions
  pub webhook_server : WebhookOptions
  pub health_probe_bind_address : String
  pub leader_election : Bool
  pub leader_election_id : String

unfoldable pub disable_http2 : TlsConfig → TlsConfig
disable_http2 c = record c { next_protos = "http/1.1" ∷ [] }

unfoldable pub tls_options : Bool → List (TlsConfig → TlsConfig)
tls_options enable_http2 = if not enable_http2 then disable_http2 ∷ [] else []

-- The certificate of a server, if its path is given.
unfoldable pub webhook_certs : Flags → WebhookOptions → WebhookOptions
webhook_certs f o =
    if not (str_eq f.webhook_cert_path "")
    then record o {
      cert_dir = f.webhook_cert_path;
      cert_name = f.webhook_cert_name;
      key_name = f.webhook_cert_key;
    }
    else o

unfoldable pub webhook_options : Flags → WebhookOptions
webhook_options f =
    webhook_certs f (record {
      tls_opts = tls_options f.enable_http2;
      cert_dir = "";
      cert_name = "";
      key_name = "";
    })

unfoldable pub protect : Bool → MetricsOptions → MetricsOptions
protect secure o =
    if secure then record o { filter_provider = some with_authentication_and_authorization } else o

unfoldable pub metrics_certs : Flags → MetricsOptions → MetricsOptions
metrics_certs f o =
    if not (str_eq f.metrics_cert_path "")
    then record o {
      cert_dir = f.metrics_cert_path;
      cert_name = f.metrics_cert_name;
      key_name = f.metrics_cert_key;
    }
    else o

unfoldable pub metrics_options : Flags → MetricsOptions
metrics_options f = metrics_certs f (
    protect f.secure_metrics (record {
      bind_address = f.metrics_addr;
      secure_serving = f.secure_metrics;
      tls_opts = tls_options f.enable_http2;
      filter_provider = none;
      cert_dir = "";
      cert_name = "";
      key_name = "";
    }))

unfoldable pub manager_options : Flags → ManagerOptions
manager_options f = record {
  metrics = metrics_options f;
  webhook_server = webhook_options f;
  health_probe_bind_address = f.probe_addr;
  leader_election = f.enable_leader_election;
  leader_election_id = "1a825c12.aws.harsh.dev";
}
