-- ===== src/Manager/Options.antt =====
-- The command line of cmd/main.go, and the options of the servers and the manager that it leads to.
use schema_strimzi_operator.Prelude.{
  String, Bool, true, false, Option, none, some, List, [], ◌∷◌, ◌==◌, string_eq, not, if◌then◌else◌,
}

-- The flags, as `flag.Parse` leaves them (those of the logger are left out).
pub record Flags : Type 0 where
  pub metrics_addr : String
  pub probe_addr : String
  pub enable_leader_election : Bool
  pub secure_metrics : Bool
  pub webhook_cert_path : String
  pub webhook_cert_name : String
  pub webhook_cert_key : String
  pub metrics_cert_path : String
  pub metrics_cert_name : String
  pub metrics_cert_key : String
  pub enable_http2 : Bool

-- The values of an empty command line.
abbrev pub default_flags : Flags
default_flags = record {
  metrics_addr = "0";
  probe_addr = ":8081";
  enable_leader_election = false;
  secure_metrics = true;
  webhook_cert_path = "";
  webhook_cert_name = "tls.crt";
  webhook_cert_key = "tls.key";
  metrics_cert_path = "";
  metrics_cert_name = "tls.crt";
  metrics_cert_key = "tls.key";
  enable_http2 = false;
}

-- A `tls.Config` of a server, as far as the options change it.
pub record ServerTls : Type 0 where
  pub next_protos : List String

-- `func(*tls.Config)`
abbrev pub TlsOpt : Type 0
TlsOpt = ServerTls → ServerTls

unfoldable pub disable_http2 : TlsOpt
disable_http2 c = record c { next_protos = "http/1.1" ∷ [] }

unfoldable pub tls_opts : Flags → List TlsOpt
unfolding disable_http2
tls_opts flags = if not flags.enable_http2 then disable_http2 ∷ [] else []

-- A server applies its options one after the other.
unfoldable pub apply_opts : List TlsOpt → ServerTls → ServerTls
apply_opts [] c = c
apply_opts (opt ∷ opts) c = apply_opts opts (opt c)

-- `webhook.Options`
pub record WebhookServerOptions : Type 0 where
  pub tls_opts : List TlsOpt
  pub cert_dir : String
  pub cert_name : String
  pub key_name : String

unfoldable pub webhook_server_options : Flags → WebhookServerOptions
unfolding tls_opts
webhook_server_options flags =
    let options : WebhookServerOptions = record {
      tls_opts = tls_opts flags;
      cert_dir = "";
      cert_name = "";
      key_name = "";
    } in
    if not (flags.webhook_cert_path == "")
    then record options {
      cert_dir = flags.webhook_cert_path;
      cert_name = flags.webhook_cert_name;
      key_name = flags.webhook_cert_key;
    }
    else options

-- The `FilterProvider` of the metrics server.
pub data FilterProvider : Type 0 where
  with_authentication_and_authorization : FilterProvider

-- `metricsserver.Options`
pub record MetricsServerOptions : Type 0 where
  pub bind_address : String
  pub secure_serving : Bool
  pub tls_opts : List TlsOpt
  pub filter_provider : Option FilterProvider
  pub cert_dir : String
  pub cert_name : String
  pub key_name : String

unfoldable pub metrics_server_options : Flags → MetricsServerOptions
unfolding tls_opts
metrics_server_options flags =
    let options : MetricsServerOptions = record {
      bind_address = flags.metrics_addr;
      secure_serving = flags.secure_metrics;
      tls_opts = tls_opts flags;
      filter_provider =
          if flags.secure_metrics then some with_authentication_and_authorization else none;
      cert_dir = "";
      cert_name = "";
      key_name = "";
    } in
    if not (flags.metrics_cert_path == "")
    then record options {
      cert_dir = flags.metrics_cert_path;
      cert_name = flags.metrics_cert_name;
      key_name = flags.metrics_cert_key;
    }
    else options

-- `ctrl.Options`; a webhook server is taken for the options that it was made with.
pub record ManagerOptions : Type 0 where
  pub metrics : MetricsServerOptions
  pub webhook_server : WebhookServerOptions
  pub health_probe_bind_address : String
  pub leader_election : Bool
  pub leader_election_id : String

unfoldable pub manager_options : Flags → ManagerOptions
unfolding webhook_server_options metrics_server_options
manager_options flags = record {
  metrics = metrics_server_options flags;
  webhook_server = webhook_server_options flags;
  health_probe_bind_address = flags.probe_addr;
  leader_election = flags.enable_leader_election;
  leader_election_id = "36d28028.strimzi.io";
}
