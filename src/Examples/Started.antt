-- ===== src/Examples/Started.antt =====
-- A start of proxy/src/main.rs, with its settings, its log and its key.
use den_browser.Prelude.{
  ◌≡◌, refl, true, false, [], ◌∷◌, ◌++◌, none, some, Text, Bytes, text, ◌==◌, list_eq, list_beq,
  nat_eq, if◌then◌else◌, arith, ap, length, contains, trim, rsplit_once, as_bytes, is_whitespace,
  to_ascii_lowercase,
}
use den_browser.Prelude.Int.{pos}
use den_browser.Prelude.Result.{ok, err}
use den_browser.Config.{Config, LoggingConfig, ProxyConfig}
use den_browser.Config.Env.{Lookup, not_present}
use den_browser.Config.Env.Tree.{end, entry, table, string}
use den_browser.Config.Loading.{Toml}
use den_browser.Config.LoggingSettings
use den_browser.Config.LoggingSettings.{log_rotations, log_levels}
use den_browser.Logging.{
  build_filter, build_file_writer, rotation_from_str, sync_log_bridge_level, daily, Tracing,
  Subscriber, TracingLevel, LevelFilter, init,
}
use den_browser.Logging.Installed.{IsInstalled, init-IsInstalled}
use den_browser.Logging.JsonLines.{
  Json, Event, FieldValue, format_event, record_value, record_str, put,
}
use den_browser.Logging.Verbatim.{IsWrapped, format_event-IsWrapped}
use den_browser.Config.ProxySettings
use den_browser.Config.ProxySettings.{is_blank}
use den_browser.Config.Env.{expand_str}
use den_browser.Config.Env.Tree.{expand}
use den_browser.Config.Loading.{load}
use den_browser.UpstreamTls
use den_browser.Attest.Setup
use den_browser.RateLimit
use den_browser.Mtls
use den_browser.Machine
use den_browser.Passthrough
use den_browser.Proxy.State.{new_proxy, parse_u16}
use den_browser.Prelude.Decimal.{read_digits}
use den_browser.TlsKey
use den_browser.Startup.{shares_certificate}
use den_browser.TlsKey.{OpenSsl, passphrase, first_line}
use den_browser.TlsKey.Loading.{unix, passphrase-written}
use den_browser.Startup.{Args, World, Components}
use den_browser.Startup.Listening.{Listener, require_client_certs, start}
use den_browser.Startup.Secured.{IsListening}
use den_browser.Startup.Started.{IsConfigured, start-IsStarted}
use den_browser.Attest.NonceCache.{default}
use den_browser.Examples.Parameters.{deps, workstation}

abbrev environment : Lookup
environment name = if name == text "PORT" then ok (text "8081") else err not_present

abbrev proxy_settings : ProxyConfig
proxy_settings = record {
  listen = text "0.0.0.0:8081";
  upstream = text "backend:443";
  upstream_ca = [];
  tls_cert = text "tls.crt";
  tls_key = text "tls.key";
  tls_key_passphrase = [];
  tls_key_passphrase_file = text "tls.pass";
}

abbrev logging_settings : LoggingConfig
logging_settings = record {
  dir = text "/var/log";
  file_prefix = text "proxy.log";
  level = text " info ";
  rotation = text "daily";
  max_files = 14;
  stderr = true;
}

abbrev config : Config
config = record {
  proxy = proxy_settings;
  attestation = record { private_key = text "attest.key" };
  rate_limiting = record { enabled = false; window_secs = 0; max_requests = pos 0; rules = [] };
  mtls = record { enabled = true; client_ca = text "ca.pem" };
  machine_identity = record {
    enabled = false;
    machine_ca = [];
    required = false;
    allowed_hostnames = [];
    dns_ttl_secs = 0;
    dns_negative_ttl_secs = 0;
    dns_stale_grace_secs = 0;
    partial_chain = false;
  };
  proxy_bypass = record { enabled = false; allowed_ip_ranges = []; allowed_subjects = [] };
  logging = logging_settings;
}

abbrev toml : Toml
toml = record {
  Plain = Unit {0};
  parse_config = λ content. ok config;
  parse_table = λ content. ok (
      entry (text "proxy") (table (entry (text "listen") (string (text "0.0.0.0:${PORT}")) end))
        end);
  try_into = λ sections. some config;
}

abbrev tracing : Tracing
tracing = record {
  EnvFilter = Text;
  try_new = λ source. ok source;
  create_dir_all = λ dir. ok tt;
  build = λ appender. ok tt;
  try_init = λ filter. ok tt;
  current = λ filter. some TracingLevel.info;
}

abbrev openssl : OpenSsl
openssl = record {
  PKey = Bytes;
  private_key_from_pem_callback = λ pem ask. record { key = ok (ask 1024); asked = true };
}

abbrev pub world : World
world = record {
  deps = deps;
  toml = toml;
  tracing = tracing;
  openssl = openssl;
  environment = environment;
  read = λ path. ok (text "secret" ++ (10 ∷ text "more"));
  read_to_string = λ path. ok (text "pem");
  same_subject = λ a b. false;
  PublicKey = Unit {0};
  public_key = λ cert. some tt;
  public_eq = λ k l. true;
  new_server = ok tt;
  acceptor = λ with_mtls. ok tt;
  set_certificate_chain_file = λ path. ok tt;
  set_private_key = λ path key. ok tt;
  set_ca_file = λ path. ok tt;
  add_client_ca = λ ca. ok tt;
  set_session_id_context = ok tt;
}

abbrev pub args : Args
args = record { insecure_upstream = false; config = text "proxy.toml" }

abbrev subscriber : Subscriber tracing
subscriber = record {
  filter = text "info";
  file = some (record {
    dir = text "/var/log";
    rotation = daily;
    filename_prefix = text "proxy.log";
    max_files = some 14;
  });
  stderr = true;
  log_level = LevelFilter.info;
}

installed : init tracing environment logging_settings ≡ ok subscriber
unfolding init LoggingSettings.validate contains log_rotations list_beq text trim is_whitespace
    log_levels to_ascii_lowercase build_filter build_file_writer rotation_from_str
    sync_log_bridge_level
installed = refl

init-IsInstalled_example : IsInstalled tracing environment logging_settings subscriber
init-IsInstalled_example =
    init-IsInstalled tracing environment logging_settings subscriber installed

passphrase-written_example : passphrase world.read proxy_settings ≡ ok (some (text "secret"))
unfolding text contains
passphrase-written_example =
    passphrase-written world.read proxy_settings (text "secret") (10 ∷ text "more") refl
      (λ e. absurd (omega (arith, ap length e))) refl
      (record { front = text "secre"; last = b't'; whole = refl; visible = refl; single = refl })
      (unix (text "more"))

-- serde_json, as far as the event below needs it.
abbrev json : Json
json = record {
  F64 = Unit {0};
  Value = Text;
  of_str = λ t. t;
  of_i64 = λ n. [];
  of_u64 = λ n. [];
  of_bool = λ b. [];
  null = [];
  from_f64 = λ x. none;
  as_string = λ v. some v;
  show = λ v. v;
  to_string = λ r. some r.message;
  audit_to_string = λ r. err (text "no JSON");
}

-- An event of another target, with a field named as that of the audit records.
abbrev forged : Event json
forged = record {
  target = text "log";
  level = text "INFO";
  fields =
      (text "audit_record", FieldValue.str (text "{}"))
      ∷ (text "message", FieldValue.str (text "hi"))
      ∷ [];
}

wrapped : format_event json (text "now") forged ≡ some (text "hi" ++ (10 ∷ []))
unfolding format_event text record_value record_str list_beq put
wrapped = refl

format_event-IsWrapped_example : IsWrapped json (text "hi" ++ (10 ∷ []))
unfolding text
format_event-IsWrapped_example =
    format_event-IsWrapped json (text "now") (text "hi" ++ (10 ∷ [])) forged
      (λ e. absurd (omega (arith, ap length e))) wrapped

abbrev pub made : Components world
made = record {
  config = config;
  subscriber = subscriber;
  upstream_tls = record { ca_certs = none; insecure = false };
  verifier = record { private_key = tt; nonce_cache = default };
  rate_limiter = none;
  mtls = some (record { ca_path = text "ca.pem"; ca_certs = workstation ∷ [] });
  machine = none;
  proxy = record {
    private_key = tt;
    upstream_host = text "backend";
    upstream_port = 443;
    bypass_policy = none;
    machine = none;
  };
}

abbrev pub opened : Listener world
opened = record {
  listen = text "0.0.0.0:8081";
  key = record { key = text "secret"; warned = false };
  tls = record {
    with_callbacks = true;
    certificate_chain_file = some (text "tls.crt");
    private_key = some (text "secret");
    ca_file = some (text "ca.pem");
    client_cas = workstation ∷ [];
    requires_client_cert = true;
    session_id_context = some (text "denbrowser-proxy");
  };
}

pub started : start world args ≡ ok (made, opened)
unfolding start text init load expand expand_str list_beq LoggingSettings.validate contains
    log_rotations trim is_whitespace log_levels to_ascii_lowercase build_filter build_file_writer
    rotation_from_str sync_log_bridge_level ProxySettings.validate is_blank UpstreamTls.from_config
    Setup.from_config RateLimit.from_config Mtls.from_config Machine.from_config
    Passthrough.from_config new_proxy rsplit_once TlsKey.load passphrase first_line
    require_client_certs shares_certificate parse_u16 as_bytes read_digits
started = refl

start-IsStarted_example : IsConfigured world args made × IsListening world made opened
start-IsStarted_example = start-IsStarted world args made opened started
