-- ===== src/Config.antt =====
-- The sections of proxy/src/config.rs, with their defaults.
pub mod Env
pub mod ProxySettings
pub mod LoggingSettings
pub mod Loading
use den_browser.Prelude.{ℕ, Bool, true, false, List, [], Text, text}
use den_browser.Prelude.Int.{ℤ}

pub record ProxyConfig : Type 0 where
  pub listen : Text
  pub upstream : Text
  pub upstream_ca : Text
  pub tls_cert : Text
  pub tls_key : Text
  pub tls_key_passphrase : Text
  pub tls_key_passphrase_file : Text

pub record AttestationConfig : Type 0 where
  pub private_key : Text

pub record RuleConfig : Type 0 where
  pub pattern : Text
  pub window_secs : ℕ
  pub max_requests : ℤ

pub record RateLimitConfig : Type 0 where
  pub enabled : Bool
  pub window_secs : ℕ
  pub max_requests : ℤ
  pub rules : List RuleConfig

pub record MtlsConfig : Type 0 where
  pub enabled : Bool
  pub client_ca : Text

pub record MachineIdentityConfig : Type 0 where
  pub enabled : Bool
  pub machine_ca : Text
  pub required : Bool
  pub allowed_hostnames : List Text
  pub dns_ttl_secs : ℕ
  pub dns_negative_ttl_secs : ℕ
  pub dns_stale_grace_secs : ℕ
  pub partial_chain : Bool

pub record ProxyBypassConfig : Type 0 where
  pub enabled : Bool
  pub allowed_ip_ranges : List Text
  pub allowed_subjects : List Text

pub record LoggingConfig : Type 0 where
  pub dir : Text
  pub file_prefix : Text
  pub level : Text
  pub rotation : Text
  pub max_files : ℕ
  pub stderr : Bool

pub record Config : Type 0 where
  pub proxy : ProxyConfig
  pub attestation : AttestationConfig
  pub rate_limiting : RateLimitConfig
  pub mtls : MtlsConfig
  pub machine_identity : MachineIdentityConfig
  pub proxy_bypass : ProxyBypassConfig
  pub logging : LoggingConfig

unfoldable pub default_machine_identity : MachineIdentityConfig
default_machine_identity = record {
  enabled = true;
  machine_ca = [];
  required = true;
  allowed_hostnames = [];
  dns_ttl_secs = 14400;
  dns_negative_ttl_secs = 30;
  dns_stale_grace_secs = 3600;
  partial_chain = false;
}

unfoldable pub default_logging : LoggingConfig
default_logging = record {
  dir = [];
  file_prefix = text "denbrowser-proxy.log";
  level = text "info";
  rotation = text "daily";
  max_files = 14;
  stderr = true;
}
