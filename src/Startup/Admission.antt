-- ===== src/Startup/Admission.antt =====
-- Who is let in once `main` (proxy/src/main.rs) has started: the limiter, mTLS, the machines and the
-- bypass.
use den_browser.Prelude.{
  ◌≡◌, subst, ◌∙◌, sym, Bool, true, false, not, List, [], ◌∷◌, Option, none, some, any, All, arith,
  inl, inr, ◌⊎◌,
}
use den_browser.Prelude.Result.{ok, passed, map_err-Passed, guard-Passed, guard-eq-ok}
use den_browser.Config.{Config}
use den_browser.RateLimit
use den_browser.Mtls
use den_browser.Mtls.{Certificate, Mtls}
use den_browser.Machine
use den_browser.Machine.{MachineIdentity}
use den_browser.Passthrough
use den_browser.Startup.{
  World, Policies, policies, is_some, is_shared, shares_certificate, cas_of, machine_cas,
  shared_certificate,
}
use den_browser.Startup.Checks.{
  limiter-is_some, mtls-is_some, machine-is_some, bypass-is_some, any-none,
}

module _ (w : World) where
  open w use {
    deps, toml, tracing, openssl, environment, read, read_to_string, new_server, acceptor,
    set_certificate_chain_file, set_private_key, set_session_id_context,
  }
  open deps use {crates, limits, nets, trust}
  open trust use {stack_from_pem}

  -- No CA of the users has the subject and the key of a CA of the machines.
  abbrev pub IsDistinct : Option Mtls → Option (MachineIdentity trust) → Type 0
  IsDistinct users machines =
      All (λ a. All (λ b. is_shared w a b ≡ false) (machine_cas machines)) (cas_of users)

  -- Each policy is there exactly if its section enables it, the bypass only with mTLS.
  pub record IsPolicy (config : Config) (p : Policies w) : Type 0 where
    pub limited : is_some p.rate_limiter ≡ config.rate_limiting.enabled
    pub users : is_some p.mtls ≡ config.mtls.enabled
    pub machines : is_some p.machine ≡ config.machine_identity.enabled
    pub distinct : IsDistinct p.mtls p.machine
    pub bypassed : is_some p.bypass ≡ config.proxy_bypass.enabled
    pub bypass_needs_mtls : (config.proxy_bypass.enabled ≡ false) ⊎ (config.mtls.enabled ≡ true)

  All-nothing :
      (xs : List Certificate) → All (λ (a : Certificate). All (λ b. is_shared w a b ≡ false) []) xs
  All-nothing [] = tt
  All-nothing (x ∷ xs) = (tt, All-nothing xs)

  any-any-none :
      (p : Certificate → Certificate → Bool) (xs ys : List Certificate)
      → All (λ a. any (λ b. p a b) ys ≡ false) xs
      → All (λ a. All (λ b. p a b ≡ false) ys) xs
  any-any-none p [] ys h = tt
  any-any-none p (x ∷ xs) ys h = (any-none (λ b. p x b) ys h.0, any-any-none p xs ys h.1)

  shares_certificate-IsDistinct :
      (users : Option Mtls) (machines : Option (MachineIdentity trust))
      → shares_certificate w users machines ≡ false
      → IsDistinct users machines
  unfolding shares_certificate
  shares_certificate-IsDistinct none machines h = tt
  shares_certificate-IsDistinct (some m) none h = All-nothing m.ca_certs
  shares_certificate-IsDistinct (some m) (some mi) h =
      any-any-none (λ a b. is_shared w a b) m.ca_certs mi.ca_certs
        (any-none (λ a. any (λ b. is_shared w a b) mi.ca_certs) m.ca_certs h)

  pub policies-IsPolicy :
      (config : Config) (p : Policies w) → policies w config ≡ ok p → IsPolicy config p
  unfolding policies
  policies-IsPolicy config p h = elim (map_err-Passed _ (RateLimit.from_config _ _) _ h) [
    | passed limiter limits_to h1 ↦ elim (map_err-Passed _ (Mtls.from_config _ _ _) _ h1) [
      | passed mtls asks h2 ↦ elim (map_err-Passed _ (Machine.from_config _ _ _) _ h2) [
        | passed machine names h3 ↦
            elim (guard-Passed (not (shares_certificate w mtls machine)) shared_certificate h3) [
              | passed v apart h4 ↦ elim (map_err-Passed _ (Passthrough.from_config _ _ _) _ h4) [
                | passed bypass lets h5 ↦
                    let made : Policies w = record {
                      rate_limiter = limiter;
                      mtls = mtls;
                      machine = machine;
                      bypass = bypass;
                    } in
                    let same : made ≡ p = cc in
                    let users = mtls-is_some read stack_from_pem config.mtls mtls asks in
                    let policy =
                      bypass-is_some nets config.proxy_bypass (is_some mtls) bypass lets in
                    let differ : shares_certificate w mtls machine ≡ false = ground (
                      arith,
                      guard-eq-ok (not (shares_certificate w mtls machine)) shared_certificate
                          apart,
                    ) in
                    subst (IsPolicy config) same (record {
                      limited = limiter-is_some limits config.rate_limiting limiter limits_to;
                      users = users;
                      machines = machine-is_some trust read config.machine_identity machine names;
                      distinct = shares_certificate-IsDistinct mtls machine differ;
                      bypassed = policy.0;
                      bypass_needs_mtls = elim policy.1 [
                        | inl off ↦ inl off
                        | inr on ↦ inr (sym users ∙ on)
                      ];
                    })
              ]
            ]
      ]
    ]
  ]
