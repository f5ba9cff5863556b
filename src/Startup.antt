-- ===== src/Startup.antt =====
-- `main` of proxy/src/main.rs, up to the listener. OpenSSL's acceptor, pingora's server and the files
-- are parameters; a step that fails ends the process, which is an error here.
pub mod Checks
pub mod Listening
pub mod Secured
pub mod Reading
pub mod Admission
pub mod Started
pub mod Served
use den_browser.Prelude.{
  ◌≡◌, Bool, true, false, not, ◌&&◌, ◌||◌, List, [], ◌∷◌, Option, none, some, Text, Bytes, any,
  if◌then◌else◌,
}
use den_browser.Prelude.Result.{Result, ok, err, map_err, guard, ◌>>=◌, ◌>>◌}
use den_browser.Config.{Config, ProxyConfig}
use den_browser.Config.Env.{Lookup}
use den_browser.Config.Loading.{Toml, load}
use den_browser.Config.ProxySettings
use den_browser.Config.ProxySettings.{ProxyError}
use den_browser.Logging.{Tracing, InitError, Subscriber, init}
use den_browser.UpstreamTls
use den_browser.UpstreamTls.{UpstreamTls, UpstreamError}
use den_browser.Attest.Setup
use den_browser.Attest.Setup.{SetupError, Verifier}
use den_browser.RateLimit
use den_browser.RateLimit.{RateLimiter}
use den_browser.Mtls
use den_browser.Mtls.{Certificate, Mtls}
use den_browser.Machine
use den_browser.Machine.{MachineIdentity, Trust}
use den_browser.Passthrough
use den_browser.Passthrough.{BypassPolicy}
use den_browser.TlsKey
use den_browser.TlsKey.{OpenSsl, LoadError, LoadedKey}
use den_browser.Proxy.State.{Deps, NewError, DenBrowserProxy, new_proxy, Shared}

-- `Args`.
pub record Args : Type 0 where
  pub insecure_upstream : Bool
  pub config : Text

-- What the process finds at startup; a `Text` error is a message of a library.
pub record World : Type 1 where
  pub deps : Deps
  pub toml : Toml
  pub tracing : Tracing
  pub openssl : OpenSsl
  pub environment : Lookup
  pub read : Text → Result Bytes Text
  pub read_to_string : Text → Result Text Text
  -- `subject_name().try_cmp(..).ok() == Some(Equal)`
  pub same_subject : Certificate → Certificate → Bool
  pub PublicKey : Type 0
  pub public_key : Certificate → Option PublicKey
  pub public_eq : PublicKey → PublicKey → Bool
  -- `Server::new(None)`
  pub new_server : Result (Unit {0}) Text
  -- the acceptor, with the callbacks of `Mtls` or without
  pub acceptor : Bool → Result (Unit {0}) Text
  pub set_certificate_chain_file : Text → Result (Unit {0}) Text
  -- `set_private_key` and `check_private_key`, for the chain of this file
  pub set_private_key : Text → openssl.PKey → Result (Unit {0}) Text
  pub set_ca_file : Text → Result (Unit {0}) Text
  pub add_client_ca : Certificate → Result (Unit {0}) Text
  pub set_session_id_context : Result (Unit {0}) Text

pub data Fatal : Type 0 where
  cannot_load_config : Text → Fatal
  cannot_init_logging : InitError → Fatal
  invalid_proxy : ProxyError → Fatal
  invalid_upstream_tls : UpstreamError → Fatal
  invalid_attestation : SetupError → Fatal
  invalid_rate_limiting : RateLimit.ConfigError → Fatal
  invalid_mtls : Mtls.ConfigError → Fatal
  invalid_machine_identity : Machine.ConfigError → Fatal
  shared_certificate : Fatal
  invalid_proxy_bypass : Passthrough.ConfigError → Fatal
  invalid_upstream : NewError → Fatal
  pingora_init_failed : Text → Fatal
  invalid_tls_key : LoadError → Fatal
  callback_setup_failed : Text → Fatal
  acceptor_setup_failed : Text → Fatal
  tls_cert_load_failed : Text → Text → Fatal
  tls_key_load_failed : Text → Text → Fatal
  mtls_ca_load_failed : Text → Text → Fatal
  client_ca_list_failed : Text → Fatal
  session_id_context_failed : Text → Fatal

abbrev pub is_some {ℓ} : {A : Type ℓ} → Option A → Bool
is_some none = false
is_some (some a) = true

-- The error of the acceptor, with the callbacks of `Mtls` or without.
abbrev pub acceptor_error : Bool → Text → Fatal
acceptor_error with_mtls e = if with_mtls then callback_setup_failed e else acceptor_setup_failed e

abbrev pub cas_of : Option Mtls → List Certificate
cas_of none = []
cas_of (some m) = m.ca_certs

abbrev pub machine_cas : {trust : Trust} → Option (MachineIdentity trust) → List Certificate
machine_cas none = []
machine_cas (some mi) = mi.ca_certs

module _ (w : World) where
  open w use {
    deps, toml, tracing, openssl, environment, read, read_to_string, same_subject, PublicKey,
    public_key, public_eq, new_server, acceptor, set_certificate_chain_file, set_private_key,
    set_ca_file, add_client_ca, set_session_id_context,
  }
  open deps use {crates, limits, nets, trust}
  open trust use {stack_from_pem}

  -- Whether two certificates have the same public key.
  unfoldable pub same_key : Certificate → Certificate → Bool
  same_key a b = elim (public_key a) [
    | none ↦ false
    | some k ↦ elim (public_key b) [ none ↦ false | some l ↦ public_eq k l ]
  ]

  unfoldable pub is_shared : Certificate → Certificate → Bool
  unfolding same_key
  is_shared a b = same_subject a b && same_key a b

  -- Whether a CA of the users is one of the machines.
  unfoldable pub shares_certificate : Option Mtls → Option (MachineIdentity trust) → Bool
  unfolding is_shared
  shares_certificate (some m) (some mi) =
      any (λ user_ca. any (λ machine_ca. is_shared user_ca machine_ca) mi.ca_certs) m.ca_certs
  shares_certificate _ _ = false

  -- What is read first.
  pub record Settings : Type 0 where
    pub config : Config
    pub subscriber : Subscriber tracing
    pub upstream_tls : UpstreamTls read stack_from_pem
    pub verifier : Verifier crates

  -- Who is let in, and how often.
  pub record Policies : Type 0 where
    pub rate_limiter : Option (RateLimiter limits)
    pub mtls : Option Mtls
    pub machine : Option (MachineIdentity trust)
    pub bypass : Option (BypassPolicy nets)

  -- All that is made before the listener.
  pub record Components : Type 0 where
    pub config : Config
    pub subscriber : Subscriber tracing
    pub upstream_tls : UpstreamTls read stack_from_pem
    pub verifier : Verifier crates
    pub rate_limiter : Option (RateLimiter limits)
    pub mtls : Option Mtls
    pub machine : Option (MachineIdentity trust)
    pub proxy : DenBrowserProxy deps

  unfoldable pub settings : Args → Result Settings Fatal
  settings args = do
    config ← map_err cannot_load_config (load toml read_to_string environment args.config)
    subscriber ← map_err cannot_init_logging (init tracing environment config.logging)
    map_err invalid_proxy (ProxySettings.validate config.proxy)
    upstream_tls ←
        map_err invalid_upstream_tls
          (UpstreamTls.from_config read stack_from_pem config.proxy args.insecure_upstream)
    verifier ←
        map_err invalid_attestation (Setup.from_config crates read_to_string config.attestation)
    ok (record {
      config = config;
      subscriber = subscriber;
      upstream_tls = upstream_tls;
      verifier = verifier;
    })

  unfoldable pub policies : Config → Result Policies Fatal
  policies config = do
    rate_limiter ← map_err invalid_rate_limiting (RateLimit.from_config limits config.rate_limiting)
    mtls ← map_err invalid_mtls (Mtls.from_config read stack_from_pem config.mtls)
    machine ←
        map_err invalid_machine_identity (Machine.from_config trust read config.machine_identity)
    guard (not (shares_certificate mtls machine)) shared_certificate
    bypass ←
        map_err invalid_proxy_bypass
          (Passthrough.from_config nets config.proxy_bypass (is_some mtls))
    ok (record { rate_limiter = rate_limiter; mtls = mtls; machine = machine; bypass = bypass })

  unfoldable pub components : Args → Result Components Fatal
  unfolding settings policies
  components args = do
    s ← settings args
    p ← policies s.config
    proxy ←
        map_err invalid_upstream
          (new_proxy deps s.verifier.private_key s.config.proxy.upstream p.bypass p.machine)
    ok (record {
      config = s.config;
      subscriber = s.subscriber;
      upstream_tls = s.upstream_tls;
      verifier = s.verifier;
      rate_limiter = p.rate_limiter;
      mtls = p.mtls;
      machine = p.machine;
      proxy = proxy;
    })

  -- The state that the requests share at first.
  unfoldable pub initial : Components → Shared deps
  initial c = record { rate_limiter = c.rate_limiter; nonces = c.verifier.nonce_cache; dns = [] }
