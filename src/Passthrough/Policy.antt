-- ===== src/Passthrough/Policy.antt =====
-- proxy/src/passthrough.rs: whom the bypass lets through, and which configurations start.
use den_browser.Prelude.{
  ◌≡◌, ◌≢◌, ◌↔◌, sym, ap, Bool, true, false, List, [], ◌∷◌, map, none, some, Text, any, contains,
  Bool-cases, Option-cases, inl, inr, arith, list_eq, nat_eq, ◌∙◌,
}
use den_browser.Prelude.Result.{ok, ok_or, >>=-eq-ok, ok_or-eq-ok, ◌>>=◌}
use den_browser.Net.{IpAddr}
use den_browser.Config.{ProxyBypassConfig}
use den_browser.Mtls.{ClientCert}
use den_browser.Mtls.Subject.{names, find-found, find-none, matched-find}
use den_browser.Passthrough.{
  Nets, BypassPolicy, invalid_cidr, is_empty, authorizes, parse_ranges, from_config,
}

module _ (lib : Nets) where
  open lib use {IpNet, parse_net, contains_ip}

  -- The source address lies in a range of the policy, and `name` is a name of the certificate that
  -- the policy lists.
  abbrev pub Permitted : BypassPolicy lib → IpAddr → ClientCert → Text → Type 0
  Permitted p ip cert name =
      (any (λ net. contains_ip net ip) p.ranges ≡ true)
      × (contains name (names cert) ≡ true)
      × (contains name p.allowed_subjects ≡ true)

  -- A bypass is granted only in the name of a permitted subject.
  pub authorizes-Permitted :
      (p : BypassPolicy lib) (ip : IpAddr) (cert : ClientCert) (s : Text)
      → authorizes lib p ip cert ≡ some s
      → Permitted p ip cert s
  unfolding authorizes
  authorizes-Permitted p ip cert s h =
      elim (Bool-cases (any (λ net. contains_ip net ip) p.ranges)) [
        | inl near ↦
            let hit = sym (matched-find cert p.allowed_subjects) ∙ rw near at h in
            let found = find-found (λ n. contains n p.allowed_subjects) (names cert) s hit in
            (near, found.1, found.0)
        | inr far ↦ absurd (let e : none ≡ some s = rw far at h in cc)
      ]

  Permitted-bypasses :
      (p : BypassPolicy lib) (ip : IpAddr) (cert : ClientCert) (s : Text)
      → Permitted p ip cert s
      → authorizes lib p ip cert ≢ none
  unfolding authorizes
  Permitted-bypasses p ip cert s h k =
      let miss = sym (matched-find cert p.allowed_subjects) ∙ rw h.0 at k in
      let e = find-none (λ n. contains n p.allowed_subjects) (names cert) s miss h.1 in cc

  -- The bypass applies exactly when some name of the certificate is permitted.
  pub authorizes_iff :
      (p : BypassPolicy lib) (ip : IpAddr) (cert : ClientCert)
      → (authorizes lib p ip cert ≢ none) ↔ ((s : Text) × Permitted p ip cert s)
  authorizes_iff p ip cert = (
    λ h. elim (Option-cases (authorizes lib p ip cert)) [
      | inl e ↦ absurd (h e)
      | inr e ↦ (e.0, authorizes-Permitted p ip cert e.0 e.1)
    ],
    λ h. Permitted-bypasses p ip cert h.0 h.1,
  )

  parse_ranges-parse_net :
      (rs : List Text) (nets : List IpNet)
      → parse_ranges lib rs ≡ ok nets
      → map parse_net rs ≡ map some nets
  unfolding parse_ranges
  parse_ranges-parse_net [] nets h = let e : [] ≡ nets = cc in ap (map some) e
  parse_ranges-parse_net (r ∷ rs) nets h =
      let first =
        >>=-eq-ok {y = nets} (ok_or (parse_net r) (invalid_cidr r))
          (λ net. parse_ranges lib rs >>= λ rest. ok (net ∷ rest)) h in
      let others =
        >>=-eq-ok {y = nets} (parse_ranges lib rs) (λ rest. ok (first.0 ∷ rest)) first.2 in
      let whole : first.0 ∷ others.0 ≡ nets = let e = others.2 in cc in
      rw (
        ← whole,
        ok_or-eq-ok (parse_net r) (invalid_cidr r) first.1,
        parse_ranges-parse_net rs others.0 others.1,
      )

  policy_parts :
      (cfg : ProxyBypassConfig) (mtls_enabled : Bool) (p : BypassPolicy lib)
      → from_config lib cfg mtls_enabled ≡ ok (some p)
      → (cfg.enabled ≡ true)
        × (mtls_enabled ≡ true)
        × (parse_ranges lib cfg.allowed_ip_ranges ≡ ok p.ranges)
        × (is_empty cfg.allowed_ip_ranges ≡ false)
        × (p.allowed_subjects ≡ cfg.allowed_subjects)
        × (is_empty cfg.allowed_subjects ≡ false)
  unfolding from_config
  policy_parts cfg mtls_enabled p h = ground arith

  some_listed : (xs : List Text) → is_empty xs ≡ false → xs ≢ []
  some_listed [] h k = cc
  some_listed (x ∷ xs) h k = cc

  -- A policy comes out of the configuration only when the bypass is enabled on top of mTLS; every
  -- range of it was parsed from the list, which is not empty, nor is the list of subjects.
  pub from_config-eq-ok :
      (cfg : ProxyBypassConfig) (mtls_enabled : Bool) (p : BypassPolicy lib)
      → from_config lib cfg mtls_enabled ≡ ok (some p)
      → (cfg.enabled ≡ true)
        × (mtls_enabled ≡ true)
        × (map parse_net cfg.allowed_ip_ranges ≡ map some p.ranges)
        × (cfg.allowed_ip_ranges ≢ [])
        × (p.allowed_subjects ≡ cfg.allowed_subjects)
        × (p.allowed_subjects ≢ [])
  from_config-eq-ok cfg mtls_enabled p h =
      let parts = policy_parts cfg mtls_enabled p h in
      let same = parts.4 in
      (
        parts.0,
        parts.1,
        parse_ranges-parse_net cfg.allowed_ip_ranges p.ranges parts.2,
        some_listed cfg.allowed_ip_ranges parts.3,
        parts.4,
        λ e. some_listed cfg.allowed_subjects parts.5 (sym same ∙ e),
      )
