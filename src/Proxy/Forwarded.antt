-- ===== src/Proxy/Forwarded.antt =====
-- What `request_filter` of proxy/src/main.rs has checked when it forwards a request.
use den_browser.Prelude.{◌≡◌, refl, ap, inl, inr, Option, none, some, Text}
use den_browser.Prelude.Result.{Result, ok, err, Result-cases, >>=-eq-ok}
use den_browser.Audit.Record.{binding_of, Action}
use den_browser.Audit.Request.{RequestAudit, bypass, token_verified}
use den_browser.Attest.Verifier.{verify_headers, PhaseOne}
use den_browser.Proxy.Http.{Session}
use den_browser.Proxy.State.{Deps, Meets, Headers, DenBrowserProxy, Shared, Filtered, pass}
use den_browser.Proxy.Steps.{
  record_request, limit_step, bypass_subject, header_step, preflight_step, token_step, machine_step,
  body_step, inputs,
}
use den_browser.Proxy.Filter.{attest, after_bypass, after_limit, request_filter}
use den_browser.Proxy.Refusals.{limit_step-err, attest-err}
use den_browser.Prelude.{◌∙◌, nat_eq, list_eq}
use den_browser.Attest.Verifier.{commit_nonce}
use den_browser.Proxy.Http.{header_str, ts_header, nonce_header, token_header, request_host}
use den_browser.Proxy.Checks.{
  MachinePasses, BodyMatches, refused_elsewhere, body_step-forward, machine_checks, token_step-ok,
  header_step-ok,
}

module _ (deps : Deps) where
  open deps use {crates, trust}

  -- What stands behind a forwarded request: its headers, the phase-1 result, the states of the
  -- shared cache at the two locked steps, and the machine.
  pub record IsForwarded (proxy : DenBrowserProxy deps) (meets : Meets (Shared deps))
      (shared : Shared deps) (ctx : RequestAudit) (s : Session) (f : Filtered deps) : Type 0 where
    pub charged : Shared deps
    pub headers : Headers
    pub p1 : PhaseOne
    pub late : Shared deps
    pub admitted : limit_step deps shared (record_request deps ctx s.req_header) s ≡ ok charged
    pub complete :
        (header_str s.req_header.headers ts_header ≡ some headers.ts)
        × (header_str s.req_header.headers nonce_header ≡ some headers.nonce)
        × (header_str s.req_header.headers token_header ≡ some headers.token)
        × (request_host s.req_header ≡ some headers.host)
    pub attested :
        verify_headers crates proxy.private_key
          (meets.after_admit charged).nonces
          meets.wall_headers
          (inputs deps headers s.req_header)
        ≡ ok p1
    pub machine :
        MachinePasses deps s meets.lookup
          (record_request deps ctx s.req_header).presented_machine_cert
          proxy.machine
    pub body : BodyMatches deps p1.body_binding s.body
    pub committed :
        commit_nonce (meets.before_commit late).nonces p1 meets.wall_commit meets.at
        ≡ (f.shared.nonces, ok tt)

  attest-forward :
      (proxy : DenBrowserProxy deps) (meets : Meets (Shared deps)) (shared charged : Shared deps)
      (ctx : RequestAudit) (s : Session) (f : Filtered deps)
      → limit_step deps shared (record_request deps ctx s.req_header) s ≡ ok charged
      → attest deps proxy meets charged (record_request deps ctx s.req_header) s ≡ ok f
      → f.ctx.action ≡ some Action.forward
      → IsForwarded proxy meets shared ctx s f
  unfolding attest
  attest-forward proxy meets shared charged ctx s f limited h forwarded =
      let req = s.req_header in
      let recorded = record_request deps ctx req in
      let now = meets.after_admit charged in
      let later = meets.after_headers now in
      let (headers, e1, h1) = >>=-eq-ok (header_step deps charged recorded req) _ h in
      let (checked, e2, h2) = >>=-eq-ok (preflight_step deps proxy charged recorded req) _ h1 in
      let (p1, e3, h3) = >>=-eq-ok (token_step deps proxy meets now checked headers req) _ h2 in
      let known = token_verified checked (binding_of p1.body_binding) in
      let (identified, e4, h4) =
        >>=-eq-ok (machine_step deps proxy.machine meets later known s) _ h3 in
      let last = body_step deps meets identified.0 identified.1 p1 p1.body_binding s.body in
      let same : last ≡ f = cc h4 in
      let ends =
        body_step-forward deps meets identified.0 identified.1 p1 p1.body_binding s.body refl
          (ap (λ g. g.ctx.action) same ∙ forwarded) in
      record {
        charged = charged;
        headers = headers;
        p1 = p1;
        late = identified.0;
        admitted = limited;
        complete = header_step-ok deps charged recorded req headers e1;
        attested = token_step-ok deps proxy meets now checked headers req p1 e3;
        machine =
            machine_checks deps proxy.machine proxy meets charged later recorded checked known s
              identified refl e2 (unfold token_verified in refl) e4;
        body = ends.1;
        committed = ends.0 ∙ ap (λ g. (g.shared.nonces, ok tt)) same;
      }

  after_bypass-forward :
      (proxy : DenBrowserProxy deps) (meets : Meets (Shared deps)) (shared charged : Shared deps)
      (ctx : RequestAudit) (s : Session) (subject : Option Text)
      → limit_step deps shared (record_request deps ctx s.req_header) s ≡ ok charged
      → (after_bypass deps proxy meets charged
          (record_request deps ctx s.req_header)
          s
          subject).ctx.action
        ≡ some Action.forward
      → IsForwarded proxy meets shared ctx s
          (after_bypass deps proxy meets charged (record_request deps ctx s.req_header) s subject)
  unfolding after_bypass pass bypass
  after_bypass-forward proxy meets shared charged ctx s (some subject) limited h = cc
  after_bypass-forward proxy meets shared charged ctx s none limited h =
      let recorded = record_request deps ctx s.req_header in
      elim (Result-cases (attest deps proxy meets charged recorded s)) [
        | inl (f, ended) ↦
            rw ended
              (attest-forward proxy meets shared charged ctx s f limited ended (rw ended at h))
        | inr (f, early) ↦ absurd (
            refused_elsewhere deps f (attest-err deps proxy meets charged recorded s f early)
              (rw early at h))
      ]

  after_limit-forward :
      (proxy : DenBrowserProxy deps) (meets : Meets (Shared deps)) (shared : Shared deps)
      (ctx : RequestAudit) (s : Session) (limited : Result (Shared deps) (Filtered deps))
      → limit_step deps shared (record_request deps ctx s.req_header) s ≡ limited
      → (after_limit deps proxy meets (record_request deps ctx s.req_header) s limited).ctx.action
        ≡ some Action.forward
      → IsForwarded proxy meets shared ctx s
          (after_limit deps proxy meets (record_request deps ctx s.req_header) s limited)
  unfolding after_limit
  after_limit-forward proxy meets shared ctx s (err f) same h = absurd (
      refused_elsewhere deps f
        (limit_step-err deps shared (record_request deps ctx s.req_header) s f same) h)
  after_limit-forward proxy meets shared ctx s (ok charged) same h =
      after_bypass-forward proxy meets shared charged ctx s (bypass_subject deps proxy s) same h

  -- A request that `request_filter` forwards was admitted by the rate limiter, carries all the
  -- attestation headers and a host, and passed phase 1 of the attestation for its own method, host
  -- and path; its machine certificate, if machine identity is enabled, was verified, or was absent
  -- where it is not required; its body, when the token binds one, was read in full and has the hash
  -- of the token; and its nonce was committed to the cache that the call leaves behind.
  pub request_filter-IsForwarded :
      (proxy : DenBrowserProxy deps) (meets : Meets (Shared deps)) (shared : Shared deps)
      (ctx : RequestAudit) (s : Session)
      → (request_filter deps proxy meets shared ctx s).ctx.action ≡ some Action.forward
      → IsForwarded proxy meets shared ctx s (request_filter deps proxy meets shared ctx s)
  unfolding request_filter
  request_filter-IsForwarded proxy meets shared ctx s h =
      after_limit-forward proxy meets shared ctx s
        (limit_step deps shared (record_request deps ctx s.req_header) s) refl h
