-- ===== src/Startup/Listening.antt =====
-- The listener of `main` in proxy/src/main.rs, and the whole start.
use den_browser.Prelude.{Bool, true, false, ◌++◌, text, List, [], ◌∷◌, Option, none, some, Text}
use den_browser.Prelude.Result.{Result, ok, map_err, ◌>>=◌, ◌>>◌}
use den_browser.Config.{ProxyConfig}
use den_browser.Mtls.{Certificate, Mtls}
use den_browser.TlsKey
use den_browser.TlsKey.{OpenSsl, LoadError, LoadedKey}
use den_browser.Startup.{
  Args, World, Fatal, is_some, acceptor_error, Components, components, pingora_init_failed,
  invalid_tls_key, tls_cert_load_failed, tls_key_load_failed, mtls_ca_load_failed,
  client_ca_list_failed, session_id_context_failed,
}

module _ (w : World) where
  open w use {
    openssl, read, new_server, acceptor, set_certificate_chain_file, set_private_key, set_ca_file,
    add_client_ca, set_session_id_context,
  }

  -- `TlsSettings`, as the calls of `main` leave it. A call that fails leaves no acceptor.
  pub record Acceptor : Type 0 where
    pub with_callbacks : Bool
    pub certificate_chain_file : Option Text
    pub private_key : Option openssl.PKey
    pub ca_file : Option Text
    pub client_cas : List Certificate
    pub requires_client_cert : Bool
    pub session_id_context : Option Text

  -- `TlsSettings::with_callbacks`, or `mozilla_intermediate_v5`.
  unfoldable pub new_acceptor : Bool → Result Acceptor Fatal
  new_acceptor with_mtls = do
    map_err (acceptor_error with_mtls) (acceptor with_mtls)
    ok (record {
      with_callbacks = with_mtls;
      certificate_chain_file = none;
      private_key = none;
      ca_file = none;
      client_cas = [];
      requires_client_cert = false;
      session_id_context = none;
    })

  unfoldable pub install_chain : Text → Acceptor → Result Acceptor Fatal
  install_chain path tls = do
    map_err (tls_cert_load_failed path) (set_certificate_chain_file path)
    ok (record tls { certificate_chain_file = some path })

  -- `set_private_key` and `check_private_key`.
  unfoldable pub install_key : ProxyConfig → openssl.PKey → Acceptor → Result Acceptor Fatal
  install_key cfg key tls = do
    map_err (tls_key_load_failed cfg.tls_key) (set_private_key cfg.tls_cert key)
    ok (record tls { private_key = some key })

  -- The loop over `add_client_ca`.
  unfoldable pub add_client_cas : List Certificate → Acceptor → Result Acceptor Fatal
  add_client_cas [] tls = ok tls
  add_client_cas (ca ∷ cas) tls = do
    map_err client_ca_list_failed (add_client_ca ca)
    add_client_cas cas (record tls { client_cas = tls.client_cas ++ (ca ∷ []) })

  -- With mTLS: the CA file is the store of the verification, its certificates are advertised, and
  -- `set_verify` asks for a certificate and fails without one.
  unfoldable pub require_client_certs : Option Mtls → Acceptor → Result Acceptor Fatal
  unfolding add_client_cas
  require_client_certs none tls = ok tls
  require_client_certs (some m) tls = do
    map_err (mtls_ca_load_failed m.ca_path) (set_ca_file m.ca_path)
    advertised ← add_client_cas m.ca_certs (record tls { ca_file = some m.ca_path })
    ok (record advertised { requires_client_cert = true })

  unfoldable pub name_session : Acceptor → Result Acceptor Fatal
  name_session tls = do
    map_err session_id_context_failed set_session_id_context
    ok (record tls { session_id_context = some (text "denbrowser-proxy") })

  -- The address that is served, with what clients meet there, and the key that was loaded.
  pub record Listener : Type 0 where
    pub listen : Text
    pub key : LoadedKey openssl.PKey
    pub tls : Acceptor

  unfoldable pub listener : Components w → Result Listener Fatal
  unfolding new_acceptor install_chain install_key require_client_certs name_session
  listener c = do
    map_err pingora_init_failed new_server
    key ← map_err invalid_tls_key (TlsKey.load openssl read c.config.proxy)
    fresh ← new_acceptor (is_some c.mtls)
    chained ← install_chain c.config.proxy.tls_cert fresh
    keyed ← install_key c.config.proxy key.key chained
    asking ← require_client_certs c.mtls keyed
    tls ← name_session asking
    ok (record { listen = c.config.proxy.listen; key = key; tls = tls })

  unfoldable pub start : Args → Result (Components w × Listener) Fatal
  unfolding components listener
  start args = do c ← components w args; l ← listener c; ok (c, l)
