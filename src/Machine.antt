-- ===== src/Machine.antt =====
-- proxy/src/machine.rs: which workstation a request came from. The certificates of OpenSSL, the
-- globs of globset and the resolver are parameters; base64 is the one of the attestation.
pub mod Error
pub mod DnsCache
pub mod Verified
use den_browser.Prelude.{
  ℕ, ◌*◌, Bool, true, false, not, ◌&&◌, ◌||◌, List, [], ◌∷◌, Option, none, some, Text, Bytes,
  as_bytes, trim, to_ascii_lowercase, any, length, leb, ltb, ◌==◌, nat_eq, list_eq, contains,
  if◌then◌else◌,
}
use den_browser.Prelude.Result.{Result, ok, err, ok_or, guard, ◌>>=◌, ◌>>◌, map_err}
use den_browser.Net.{IpAddr, ip_eq}
use den_browser.Config.{MachineIdentityConfig}
use den_browser.Mtls.{Certificate, ClientCert, from_cert, distinguished_name}
use den_browser.Attest.Window.{Instant, from_secs}
use den_browser.Machine.Error.{
  MachineError, not_base64, not_der, untrusted_chain, cert_expired, cert_not_yet_valid,
  no_common_name, unsafe_common_name, hostname_not_allowed, hostname_address_mismatch,
  hostname_unresolvable, no_client_address,
}
use den_browser.Machine.DnsCache.{Cache, Ttls, Answer, fresh, settle}

pub record VerifiedMachine : Type 0 where
  pub hostname : Text
  pub subject_dn : Text

-- What `init` on an `X509StoreContext` returns: `verify_cert`, the raw error code, its text.
pub record ChainVerdict : Type 0 where
  pub passed : Bool
  pub code : ℕ
  pub reason : Text

pub record Trust : Type 1 where
  -- `STANDARD.decode`, and `X509::from_der`
  pub decode : Bytes → Option Bytes
  pub from_der : Bytes → Option Certificate
  pub stack_from_pem : Bytes → Result (List Certificate) Text
  pub X509Store : Type 0
  -- the store of these certificates, with PARTIAL_CHAIN or without
  pub build_store : List Certificate → Bool → Result X509Store Text
  -- the chain of a bare leaf, or the error of OpenSSL's set-up
  pub verify_chain : X509Store → Certificate → Result ChainVerdict Text
  pub GlobMatcher : Type 0
  pub compile : Text → Option GlobMatcher
  pub is_match : GlobMatcher → Text → Bool
  pub show_ip : IpAddr → Text

-- The errors of `from_config`, with the paths, patterns and messages that they print.
pub data ConfigError : Type 0 where
  no_machine_ca : ConfigError
  cannot_read cannot_parse : Text → Text → ConfigError
  no_certificates : Text → ConfigError
  cannot_build_store : Text → ConfigError
  not_lowercase invalid_pattern : Text → ConfigError

-- Characters that a Common Name must not hold: `is_ascii_control` is below 0x20, or 0x7f.
unfoldable pub is_unsafe : ℕ → Bool
is_unsafe c = leb 128 c || (ltb c 0x20 || c == 0x7f) || c == b' '

abbrev is_empty {ℓ} : {A : Type ℓ} → List A → Bool
is_empty [] = true
is_empty (x ∷ xs) = false

-- The error for a chain that did not verify.
unfoldable pub chain_error : ChainVerdict → MachineError
chain_error v =
    if v.code == 10
    then cert_expired
    else if v.code == 9
    then cert_not_yet_valid
    else untrusted_chain v.reason

-- What one call of `verify` meets: the clock at the fast path, and, where it asks the resolver,
-- what other requests have made of the cache meanwhile, the answer, and the clock again.
pub record Lookup : Type 0 where
  pub asked : Instant
  pub meanwhile : Cache → Cache
  pub answer : Text → Answer
  pub swept : Instant
  pub answered : Instant

module _ (lib : Trust) where
  open lib use {
    decode, from_der, stack_from_pem, X509Store, build_store, verify_chain, GlobMatcher, compile,
    is_match,
  }

  -- The DNS cache stands apart: it is the state that requests share.
  pub record MachineIdentity : Type 0 where
    pub trusted : X509Store
    pub allowed : List GlobMatcher
    pub required : Bool
    pub ca_certs : List Certificate
    pub ttls : Ttls

  unfoldable pub presented_subject_dn : Text → Option Text
  presented_subject_dn cert_b64 = elim (decode (as_bytes (trim cert_b64))) [
    | none ↦ none
    | some der ↦ elim (from_der der) [
      | none ↦ none
      | some cert ↦ some (distinguished_name cert.subject_name)
    ]
  ]

  unfoldable pub compile_patterns : List Text → Result (List GlobMatcher) ConfigError
  compile_patterns [] = ok []
  compile_patterns (p ∷ ps) = do
    guard (p == to_ascii_lowercase p) (not_lowercase p)
    m ← ok_or (compile p) (invalid_pattern p)
    ms ← compile_patterns ps
    ok (m ∷ ms)

  unfoldable pub from_config :
      (Text → Result Bytes Text)
      → MachineIdentityConfig
      → Result (Option MachineIdentity) ConfigError
  from_config read cfg = if not cfg.enabled then ok none else do
    guard (not (cfg.machine_ca == [])) no_machine_ca
    pem ← map_err (cannot_read cfg.machine_ca) (read cfg.machine_ca)
    cas ← map_err (cannot_parse cfg.machine_ca) (stack_from_pem pem)
    guard (not (is_empty cas)) (no_certificates cfg.machine_ca)
    trusted ← map_err cannot_build_store (build_store cas cfg.partial_chain)
    allowed ← compile_patterns cfg.allowed_hostnames
    ok (
        some (record {
          trusted = trusted;
          allowed = allowed;
          required = cfg.required;
          ca_certs = cas;
          ttls = record {
            dns_ttl = from_secs cfg.dns_ttl_secs;
            dns_negative_ttl = from_secs cfg.dns_negative_ttl_secs;
            dns_stale_grace = from_secs cfg.dns_stale_grace_secs;
          };
        }))

  -- Step 1.
  unfoldable pub read_cert : Text → Result Certificate MachineError
  read_cert cert_b64 = do
    der ← ok_or (decode (as_bytes (trim cert_b64))) not_base64
    ok_or (from_der der) not_der

  -- Steps 2 to 4, for a certificate with a Common Name.
  unfoldable pub check_cert :
      MachineIdentity → Certificate → ClientCert → Text → Result VerifiedMachine MachineError
  check_cert mi cert identity common_name = do
    guard (not (is_empty common_name || any is_unsafe common_name)) unsafe_common_name
    let cn : Text = to_ascii_lowercase common_name
    guard (is_empty mi.allowed || any (λ m. is_match m cn) mi.allowed) (hostname_not_allowed cn)
    elim (verify_chain mi.trusted cert) [
      | ok verdict ↦
          if verdict.passed
          then ok (record { hostname = cn; subject_dn = identity.subject_dn })
          else err (chain_error verdict)
      | err e ↦ err (untrusted_chain e)
    ]

  unfoldable pub verify_cert : MachineIdentity → Text → Result VerifiedMachine MachineError
  unfolding read_cert check_cert
  verify_cert mi cert_b64 = do
    cert ← read_cert cert_b64
    let identity : ClientCert = from_cert cert
    common_name ← ok_or identity.common_name no_common_name
    check_cert mi cert identity common_name

  -- The verdict on the addresses that a verified machine's name resolves to.
  unfoldable pub check_address :
      VerifiedMachine → IpAddr → Option (List IpAddr) → Result VerifiedMachine MachineError
  check_address m ip none = err (hostname_unresolvable m.hostname)
  check_address m ip (some addrs) =
      if contains ip addrs
      then ok m
      else if is_empty addrs
      then err (hostname_unresolvable m.hostname)
      else err (hostname_address_mismatch m.hostname ip)

  unfoldable pub resolve_cached :
      MachineIdentity → Cache → Text → Lookup → Cache × Option (List IpAddr)
  resolve_cached mi cache host l = elim (fresh mi.ttls cache host l.asked) [
    | some addrs ↦ (cache, some addrs)
    | none ↦ settle mi.ttls (l.meanwhile cache) host (l.answer host) l.swept l.answered
  ]

  unfoldable pub verify :
      MachineIdentity
      → Cache
      → Text
      → Option IpAddr
      → Lookup
      → Cache × Result VerifiedMachine MachineError
  unfolding check_address
  verify mi cache cert_b64 none l = (cache, err no_client_address)
  verify mi cache cert_b64 (some ip) l = elim (verify_cert mi cert_b64) [
    | err e ↦ (cache, err e)
    | ok machine ↦
        let (after, addrs) = resolve_cached mi cache machine.hostname l in
        (after, check_address machine ip addrs)
  ]
