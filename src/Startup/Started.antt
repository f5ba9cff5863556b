-- ===== src/Startup/Started.antt =====
-- What holds once `main` (proxy/src/main.rs) listens.
use den_browser.Prelude.{◌≡◌, ap, subst, ◌∙◌, sym, Option, Text, arith}
use den_browser.Prelude.Result.{ok, passed, >>=-Passed, map_err-Passed}
use den_browser.Machine.{MachineIdentity}
use den_browser.Passthrough
use den_browser.Proxy.State.{DenBrowserProxy, new_proxy}
use den_browser.Startup.{
  Args, World, Settings, Policies, settings, policies, Components, components,
}
use den_browser.Startup.Listening.{Listener, listener, start}
use den_browser.Startup.Secured.{IsListening, listener-IsListening}
use den_browser.Startup.Reading.{IsRead, settings-IsRead}
use den_browser.Startup.Admission.{IsPolicy, policies-IsPolicy}

module _ (w : World) where
  open w use {
    deps, toml, tracing, openssl, environment, read, read_to_string, new_server, acceptor,
    set_certificate_chain_file, set_private_key, set_session_id_context,
  }
  open deps use {crates, limits, nets, trust}
  open trust use {stack_from_pem}

  abbrev settings_of : Components w → Settings w
  settings_of c = record {
    config = c.config;
    subscriber = c.subscriber;
    upstream_tls = c.upstream_tls;
    verifier = c.verifier;
  }

  abbrev policies_of : Components w → Policies w
  policies_of c = record {
    rate_limiter = c.rate_limiter;
    mtls = c.mtls;
    machine = c.proxy.machine;
    bypass = c.proxy.bypass_policy;
  }

  -- What the components are, for a configuration that was loaded.
  pub record IsConfigured (args : Args) (c : Components w) : Type 0 where
    pub settings : IsRead w args (settings_of c)
    pub policies : IsPolicy w c.config (policies_of c)
    pub key : c.proxy.private_key ≡ c.verifier.private_key

  new_proxy-parts :
      (key : crates.SecretKey) (upstream : Text) (policy : Option (Passthrough.BypassPolicy nets))
      (machine : Option (MachineIdentity trust)) (p : DenBrowserProxy deps)
      → new_proxy deps key upstream policy machine ≡ ok p
      → (p.private_key ≡ key) × (p.bypass_policy ≡ policy) × (p.machine ≡ machine)
  unfolding new_proxy
  new_proxy-parts key upstream policy machine p h =
      (ground (arith, h), ground (arith, h), ground (arith, h))

  components-IsConfigured :
      (args : Args) (c : Components w) → components w args ≡ ok c → IsConfigured args c
  unfolding components
  components-IsConfigured args c h = elim (>>=-Passed (settings w args) h) [
    | passed s read_first h1 ↦ elim (>>=-Passed (policies w s.config) h1) [
      | passed p let_in h2 ↦ elim (map_err-Passed _ (new_proxy deps _ _ _ _) _ h2) [
        | passed proxy made h3 ↦
            let parts =
              new_proxy-parts s.verifier.private_key s.config.proxy.upstream p.bypass p.machine
                proxy made in
            let built : Components w = record {
              config = s.config;
              subscriber = s.subscriber;
              upstream_tls = s.upstream_tls;
              verifier = s.verifier;
              rate_limiter = p.rate_limiter;
              mtls = p.mtls;
              machine = p.machine;
              proxy = proxy;
            } in
            let same : built ≡ c = cc in
            let kept : p ≡ policies_of built = cc (parts.1, parts.2) in
            subst (IsConfigured args) same (record {
              settings = settings-IsRead w args s read_first;
              policies = subst (IsPolicy w s.config) kept (policies-IsPolicy w s.config p let_in);
              key = parts.0;
            })
      ]
    ]
  ]

  -- Once `main` listens, the configuration is the one loaded and its proxy section is complete; the
  -- log is installed as its section says; the upstream is verified unless `--insecure-upstream` is
  -- given; the cache of nonces is empty; the limiter, mTLS, machine identity and the bypass are on
  -- exactly if the file enables them, and the bypass only with mTLS; no CA of the users has the
  -- subject and the key of a CA of the machines; the listener has the configured address, the
  -- configured certificate and a key that was loaded and matches it; it demands a certificate of
  -- clients exactly if mTLS is on, and then verifies it against the configured CA file, names the
  -- issuers of that file and records the identity; and sessions have their context.
  pub start-IsStarted :
      (args : Args) (c : Components w) (l : Listener w)
      → start w args ≡ ok (c, l)
      → IsConfigured args c × IsListening w c l
  unfolding start
  start-IsStarted args c l h = elim (>>=-Passed (components w args) h) [
    | passed made settled h1 ↦ elim (>>=-Passed (listener w made) h1) [
      | passed opened listens h2 ↦
          let same : made ≡ c = cc in
          let bound : opened ≡ l = cc in
          (
            components-IsConfigured args c (settled ∙ ap ok same),
            listener-IsListening w c l (ap (listener w) (sym same) ∙ listens ∙ ap ok bound),
          )
    ]
  ]
