-- ===== src/Passthrough.antt =====
-- proxy/src/passthrough.rs: the attestation bypass. The networks of ipnet are a parameter.
pub mod Policy
use den_browser.Prelude.{
  Bool, true, false, not, List, [], ◌∷◌, Option, none, some, Text, any, if◌then◌else◌,
}
use den_browser.Prelude.Result.{Result, ok, err, ok_or, guard, ◌>>=◌, ◌>>◌}
use den_browser.Net.{IpAddr}
use den_browser.Config.{ProxyBypassConfig}
use den_browser.Mtls.{ClientCert, matched}

pub record Nets : Type 1 where
  pub IpNet : Type 0
  pub parse_net : Text → Option IpNet
  pub contains_ip : IpNet → IpAddr → Bool

pub data ConfigError : Type 0 where
  requires_mtls : ConfigError
  no_ip_ranges : ConfigError
  invalid_cidr : Text → ConfigError
  no_subjects : ConfigError

abbrev is_empty {ℓ} : {A : Type ℓ} → List A → Bool
is_empty [] = true
is_empty (x ∷ xs) = false

module _ (lib : Nets) where
  open lib use {IpNet, parse_net, contains_ip}

  pub record BypassPolicy : Type 0 where
    pub ranges : List IpNet
    pub allowed_subjects : List Text

  unfoldable pub authorizes : BypassPolicy → IpAddr → ClientCert → Option Text
  authorizes p ip cert =
      if not (any (λ net. contains_ip net ip) p.ranges)
      then none
      else matched cert p.allowed_subjects

  unfoldable pub parse_ranges : List Text → Result (List IpNet) ConfigError
  parse_ranges [] = ok []
  parse_ranges (r ∷ rs) = do
    net ← ok_or (parse_net r) (invalid_cidr r)
    nets ← parse_ranges rs
    ok (net ∷ nets)

  unfoldable pub from_config : ProxyBypassConfig → Bool → Result (Option BypassPolicy) ConfigError
  from_config cfg mtls_enabled = if not cfg.enabled then ok none else do
    guard mtls_enabled requires_mtls
    guard (not (is_empty cfg.allowed_ip_ranges)) no_ip_ranges
    ranges ← parse_ranges cfg.allowed_ip_ranges
    guard (not (is_empty cfg.allowed_subjects)) no_subjects
    ok (some (record { ranges = ranges; allowed_subjects = cfg.allowed_subjects }))
