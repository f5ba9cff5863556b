-- ===== src/UpstreamTls.antt =====
-- proxy/src/upstream_tls.rs: the trust settings of upstream connections. OpenSSL and the file system
-- are parameters; a peer is its three options.
use den_browser.Prelude.{
  Bool, true, false, not, List, [], ◌∷◌, Option, none, some, Text, Bytes, ◌==◌, list_eq, nat_eq,
  if◌then◌else◌,
}
use den_browser.Prelude.Result.{Result, ok, map_err, guard, ◌>>=◌, ◌>>◌}
use den_browser.Config.{ProxyConfig}

pub data UpstreamError : Type 0 where
  cannot_read : Text → Text → UpstreamError
  cannot_parse : Text → Text → UpstreamError
  no_certificates : Text → UpstreamError

abbrev is_empty {ℓ} : {A : Type ℓ} → List A → Bool
is_empty [] = true
is_empty (x ∷ xs) = false

module _ {X509 : Type 0} (read : Text → Result Bytes Text)
    (stack_from_pem : Bytes → Result (List X509) Text) where
  pub record UpstreamTls : Type 0 where
    pub ca_certs : Option (List X509)
    pub insecure : Bool

  -- `peer.options`: without `ca`, the connector's own trust.
  pub record PeerOptions : Type 0 where
    pub ca : Option (List X509)
    pub verify_cert : Bool
    pub verify_hostname : Bool

  unfoldable pub read_bundle : Text → Result (Option (List X509)) UpstreamError
  read_bundle path = if path == [] then ok none else do
    pem ← map_err (cannot_read path) (read path)
    certs ← map_err (cannot_parse path) (stack_from_pem pem)
    guard (not (is_empty certs)) (no_certificates path)
    ok (some certs)

  unfoldable pub from_config : ProxyConfig → Bool → Result UpstreamTls UpstreamError
  unfolding read_bundle
  from_config cfg insecure = do
    ca_certs ← read_bundle cfg.upstream_ca
    ok (record { ca_certs = ca_certs; insecure = insecure })

  unfoldable pub apply : UpstreamTls → PeerOptions → PeerOptions
  apply tls peer = record peer {
    ca = tls.ca_certs;
    verify_cert = not tls.insecure;
    verify_hostname = not tls.insecure;
  }
