-- ===== src/Startup/Reading.antt =====
-- What `main` (proxy/src/main.rs) has read when it goes on to the policies.
use den_browser.Prelude.{◌≡◌, subst}
use den_browser.Prelude.Result.{ok, passed, map_err-Passed}
use den_browser.Config.Loading.{load}
use den_browser.Config.ProxySettings
use den_browser.Config.ProxySettings.{IsComplete, validate_iff}
use den_browser.Logging.{init}
use den_browser.Logging.Installed.{IsInstalled, init-IsInstalled}
use den_browser.Attest.NonceCache.{default}
use den_browser.Attest.Setup
use den_browser.Attest.Setup.{Verifier}
use den_browser.UpstreamTls
use den_browser.UpstreamTls.{UpstreamTls}
use den_browser.Startup.{Args, World, Settings, settings}
use den_browser.Startup.Checks.{upstream_tls-insecure, verifier-empty}

module _ (w : World) where
  open w use {
    deps, toml, tracing, openssl, environment, read, read_to_string, new_server, acceptor,
    set_certificate_chain_file, set_private_key, set_session_id_context,
  }
  open deps use {crates, limits, nets, trust}
  open trust use {stack_from_pem}

  -- The configuration of the file, with a complete proxy section, the log as its section says, and
  -- an empty cache of nonces.
  pub record IsRead (args : Args) (s : Settings w) : Type 0 where
    pub loaded : load toml read_to_string environment args.config ≡ ok s.config
    pub settings : IsComplete s.config.proxy
    pub logging : IsInstalled tracing environment s.config.logging s.subscriber
    pub verified_upstream : s.upstream_tls.insecure ≡ args.insecure_upstream
    pub empty_cache : s.verifier.nonce_cache ≡ default

  pub settings-IsRead : (args : Args) (s : Settings w) → settings w args ≡ ok s → IsRead args s
  unfolding settings
  settings-IsRead args s h = elim (map_err-Passed _ (load _ _ _ _) _ h) [
    | passed config loaded h1 ↦
        elim (map_err-Passed _ (init tracing environment config.logging) _ h1) [
          | passed subscriber logs h2 ↦
              elim (map_err-Passed _ (ProxySettings.validate config.proxy) _ h2) [
                | passed u valid h3 ↦
                    elim (map_err-Passed _ (UpstreamTls.from_config _ _ _ _) _ h3) [
                      | passed tls trusts h4 ↦
                          elim (map_err-Passed _ (Setup.from_config _ _ _) _ h4) [
                            | passed verifier keyed h5 ↦
                                let made : Settings w = record {
                                  config = config;
                                  subscriber = subscriber;
                                  upstream_tls = tls;
                                  verifier = verifier;
                                } in
                                let same : made ≡ s = cc in
                                subst (IsRead args) same (record {
                                  loaded = loaded;
                                  settings = (validate_iff config.proxy).0 valid;
                                  logging =
                                      init-IsInstalled tracing environment config.logging subscriber
                                        logs;
                                  verified_upstream =
                                      upstream_tls-insecure read stack_from_pem config.proxy
                                        args.insecure_upstream tls trusts;
                                  empty_cache =
                                      verifier-empty crates read_to_string config.attestation
                                        verifier keyed;
                                })
                          ]
                    ]
              ]
        ]
  ]
