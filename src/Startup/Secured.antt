-- ===== src/Startup/Secured.antt =====
-- The listener that `main` (proxy/src/main.rs) serves.
use mathlib.Core.List.{append_assoc, append-nil}
use den_browser.Prelude.{
  ◌≡◌, refl, ap, subst, ◌∙◌, sym, Bool, true, false, List, [], ◌∷◌, ◌++◌, Option, none, some, Text,
  text, arith,
}
use den_browser.Prelude.Result.{ok, passed, >>=-Passed, map_err-Passed}
use den_browser.Config.{ProxyConfig}
use den_browser.TlsKey.{LoadedKey}
use den_browser.Mtls.{Certificate, Mtls}
use den_browser.TlsKey
use den_browser.TlsKey.Loading.{IsLoaded, load-IsLoaded}
use den_browser.Startup.{World, is_some, Components, cas_of}
use den_browser.Startup.Listening.{
  Acceptor, new_acceptor, install_chain, install_key, add_client_cas, require_client_certs,
  name_session, Listener, listener,
}

module _ (w : World) where
  open w use {
    openssl, read, new_server, acceptor, set_certificate_chain_file, set_private_key, set_ca_file,
    add_client_ca, set_session_id_context,
  }

  -- The file that client certificates are verified against.
  abbrev pub ca_file_of : Option Mtls → Option Text
  ca_file_of none = none
  ca_file_of (some m) = some m.ca_path

  -- The listener of these components: what each call on the acceptor has left there.
  pub record IsListening (c : Components w) (l : Listener w) : Type 0 where
    pub address : l.listen ≡ c.config.proxy.listen
    pub key : IsLoaded openssl read c.config.proxy l.key
    pub chain : l.tls.certificate_chain_file ≡ some c.config.proxy.tls_cert
    pub installed : l.tls.private_key ≡ some l.key.key
    pub matching : set_private_key c.config.proxy.tls_cert l.key.key ≡ ok tt
    pub recorded : l.tls.with_callbacks ≡ is_some c.mtls
    pub asks : l.tls.requires_client_cert ≡ is_some c.mtls
    pub verified : l.tls.ca_file ≡ ca_file_of c.mtls
    pub issuers : l.tls.client_cas ≡ cas_of c.mtls
    pub resumable : l.tls.session_id_context ≡ some (text "denbrowser-proxy")

  new_acceptor-eq-ok :
      (with_mtls : Bool) (t : Acceptor w)
      → new_acceptor w with_mtls ≡ ok t
      → t ≡ record {
        with_callbacks = with_mtls;
        certificate_chain_file = none;
        private_key = none;
        ca_file = none;
        client_cas = [];
        requires_client_cert = false;
        session_id_context = none;
      }
  unfolding new_acceptor
  new_acceptor-eq-ok with_mtls t h = ground (arith, h)

  install_chain-eq-ok :
      (path : Text) (tls t : Acceptor w)
      → install_chain w path tls ≡ ok t
      → t ≡ record tls { certificate_chain_file = some path }
  unfolding install_chain
  install_chain-eq-ok path tls t h = ground (arith, h)

  install_key-eq-ok :
      (cfg : ProxyConfig) (key : openssl.PKey) (tls t : Acceptor w)
      → install_key w cfg key tls ≡ ok t
      → (t ≡ record tls { private_key = some key }) × (set_private_key cfg.tls_cert key ≡ ok tt)
  unfolding install_key
  install_key-eq-ok cfg key tls t h =
      elim (map_err-Passed _ (set_private_key cfg.tls_cert key) _ h) [
        | passed x matches h1 ↦ (cc, matches)
      ]

  -- The loop appends every certificate, and leaves the rest alone.
  add_client_cas-eq-ok :
      (cas : List Certificate) (tls t : Acceptor w)
      → add_client_cas w cas tls ≡ ok t
      → t ≡ record tls { client_cas = tls.client_cas ++ cas }
  unfolding add_client_cas
  add_client_cas-eq-ok [] tls t h =
      let same : tls ≡ t = cc in
      sym same ∙ ap (λ c. record tls { client_cas = c }) (sym (append-nil tls.client_cas))
  add_client_cas-eq-ok (ca ∷ cas) tls t h = elim (map_err-Passed _ (add_client_ca ca) _ h) [
    | passed x added h1 ↦
        add_client_cas-eq-ok cas (record tls { client_cas = tls.client_cas ++ (ca ∷ []) }) t h1
        ∙ ap (λ c. record tls { client_cas = c }) (append_assoc tls.client_cas (ca ∷ []) cas)
  ]

  require_client_certs-eq-ok :
      (mtls : Option Mtls) (tls t : Acceptor w)
      → tls.ca_file ≡ none
      → tls.client_cas ≡ []
      → tls.requires_client_cert ≡ false
      → require_client_certs w mtls tls ≡ ok t
      → t ≡ record tls {
        ca_file = ca_file_of mtls;
        client_cas = cas_of mtls;
        requires_client_cert = is_some mtls;
      }
  unfolding require_client_certs
  require_client_certs-eq-ok none tls t no_file no_cas unasked h = cc (no_file, no_cas, unasked, h)
  require_client_certs-eq-ok (some m) tls t no_file no_cas unasked h =
      elim (map_err-Passed _ (set_ca_file m.ca_path) _ h) [
        | passed x stored h1 ↦
            let before : Acceptor w = record tls { ca_file = some m.ca_path } in
            elim (>>=-Passed (add_client_cas w m.ca_certs before) h1) [
              | passed a advertised h2 ↦
                  let all_of = add_client_cas-eq-ok m.ca_certs before a advertised in
                  let last : record a { requires_client_cert = true } ≡ t = cc in
                  sym last
                  ∙ ap (λ (b : Acceptor w). record b { requires_client_cert = true }) all_of
                  ∙ ap
                      (λ (c : List Certificate). record before {
                        client_cas = c ++ m.ca_certs;
                        requires_client_cert = true;
                      })
                      no_cas
            ]
      ]

  name_session-eq-ok :
      (tls t : Acceptor w)
      → name_session w tls ≡ ok t
      → t ≡ record tls { session_id_context = some (text "denbrowser-proxy") }
  unfolding name_session
  name_session-eq-ok tls t h = ground (arith, h)

  pub listener-IsListening :
      (c : Components w) (l : Listener w) → listener w c ≡ ok l → IsListening c l
  unfolding listener
  listener-IsListening c l h = elim (map_err-Passed _ new_server _ h) [
    | passed u began h1 ↦ elim (map_err-Passed _ (TlsKey.load _ _ _) _ h1) [
      | passed key found h2 ↦ elim (>>=-Passed (new_acceptor w (is_some c.mtls)) h2) [
        | passed fresh made h3 ↦
            elim (>>=-Passed (install_chain w c.config.proxy.tls_cert fresh) h3) [
              | passed chained chain h4 ↦
                  elim (>>=-Passed (install_key w c.config.proxy key.key chained) h4) [
                    | passed keyed fits h5 ↦
                        elim (>>=-Passed (require_client_certs w c.mtls keyed) h5) [
                          | passed asking required h6 ↦
                              elim (>>=-Passed (name_session w asking) h6) [
                                | passed tls named h7 ↦
                                    let cfg = c.config.proxy in
                                    let a = new_acceptor-eq-ok (is_some c.mtls) fresh made in
                                    let b = install_chain-eq-ok cfg.tls_cert fresh chained chain in
                                    let d = install_key-eq-ok cfg key.key chained keyed fits in
                                    let until_key =
                                      b
                                      ∙ ap
                                          (λ (t : Acceptor w). record t {
                                            certificate_chain_file = some cfg.tls_cert;
                                          })
                                          a in
                                    let keyed_as =
                                      d.0
                                      ∙ ap
                                          (λ (t : Acceptor w). record t {
                                            private_key = some key.key;
                                          })
                                          until_key in
                                    let e =
                                      require_client_certs-eq-ok c.mtls keyed asking
                                        (ap (λ t. t.ca_file) keyed_as)
                                        (ap (λ t. t.client_cas) keyed_as)
                                        (ap (λ t. t.requires_client_cert) keyed_as) required in
                                    let f = name_session-eq-ok asking tls named in
                                    let opened : Listener w = record {
                                      listen = cfg.listen;
                                      key = key;
                                      tls = tls;
                                    } in
                                    let same : opened ≡ l = cc in
                                    let whole =
                                      f
                                      ∙ ap
                                          (λ (t : Acceptor w). record t {
                                            session_id_context = some (text "denbrowser-proxy");
                                          })
                                          (e
                                            ∙ ap
                                                (λ (t : Acceptor w). record t {
                                                  ca_file = ca_file_of c.mtls;
                                                  client_cas = cas_of c.mtls;
                                                  requires_client_cert = is_some c.mtls;
                                                })
                                                keyed_as) in
                                    subst (IsListening c) same (record {
                                      address = refl;
                                      key = load-IsLoaded openssl read cfg key found;
                                      chain = ap (λ t. t.certificate_chain_file) whole;
                                      installed = ap (λ t. t.private_key) whole;
                                      matching = d.1;
                                      recorded = ap (λ t. t.with_callbacks) whole;
                                      asks = ap (λ t. t.requires_client_cert) whole;
                                      verified = ap (λ t. t.ca_file) whole;
                                      issuers = ap (λ t. t.client_cas) whole;
                                      resumable = ap (λ t. t.session_id_context) whole;
                                    })
                              ]
                        ]
                  ]
            ]
      ]
    ]
  ]
