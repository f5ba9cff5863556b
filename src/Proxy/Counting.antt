-- ===== src/Proxy/Counting.antt =====
-- `request_filter` of proxy/src/main.rs leaves the count of the response alone.
use den_browser.Prelude.{ℕ, ◌≡◌, ◌∙◌, refl, Option, none, some, Text, arith, inl, inr}
use den_browser.Prelude.Result.{Result, ok, err, Result-cases}
use den_browser.Audit.Record.{binding_of}
use den_browser.Audit.Request.{
  RequestAudit, request, attestation_headers, machine_cert_presented, machine_absent,
  machine_verified, machine_rejected, reject, forward, bypass, token_verified,
}
use den_browser.Attest.Token.{BodyBinding}
use den_browser.Attest.Verifier.{PhaseOne}
use den_browser.Machine.{MachineIdentity}
use den_browser.Proxy.Http.{Session, RequestHeader, Body}
use den_browser.Proxy.State.{
  Deps, Meets, Headers, DenBrowserProxy, Shared, Filtered, refuse, pass, returned,
}
use den_browser.Proxy.Steps.{
  record_request, limit_step, header_step, preflight_step, token_step, machine_step, body_step,
  bypass_subject, refuse_incomplete, refuse_attest, machine_verdict, commit_step, refuse_body,
  bound_body,
}
use den_browser.Proxy.Filter.{attest, after_bypass, after_limit, request_filter}

module _ (deps : Deps) where
  abbrev count : Filtered deps → ℕ
  count f = f.ctx.response_body_bytes

  record_request-count :
      (ctx : RequestAudit) (req : RequestHeader)
      → (record_request deps ctx req).response_body_bytes ≡ ctx.response_body_bytes
  unfolding record_request request attestation_headers machine_cert_presented
  record_request-count ctx req = ground arith

  limit_step-count :
      (shared : Shared deps) (ctx : RequestAudit) (s : Session) (f : Filtered deps)
      → limit_step deps shared ctx s ≡ err f
      → count f ≡ ctx.response_body_bytes
  unfolding limit_step refuse reject
  limit_step-count shared ctx s f h = ground (arith, h)

  header_step-count :
      (shared : Shared deps) (ctx : RequestAudit) (req : RequestHeader) (f : Filtered deps)
      → header_step deps shared ctx req ≡ err f
      → count f ≡ ctx.response_body_bytes
  unfolding header_step refuse_incomplete refuse reject
  header_step-count shared ctx req f h = ground (arith, h)

  preflight_step-count :
      (proxy : DenBrowserProxy deps) (shared : Shared deps) (ctx : RequestAudit)
      (req : RequestHeader) (f : Filtered deps)
      → preflight_step deps proxy shared ctx req ≡ err f
      → count f ≡ ctx.response_body_bytes
  unfolding preflight_step refuse machine_rejected reject
  preflight_step-count proxy shared ctx req f h = ground (arith, h)

  preflight_step-kept :
      (proxy : DenBrowserProxy deps) (shared : Shared deps) (ctx : RequestAudit)
      (req : RequestHeader) (c : RequestAudit)
      → preflight_step deps proxy shared ctx req ≡ ok c
      → c.response_body_bytes ≡ ctx.response_body_bytes
  unfolding preflight_step machine_absent
  preflight_step-kept proxy shared ctx req c h = ground (arith, h)

  token_step-count :
      (proxy : DenBrowserProxy deps) (meets : Meets (Shared deps)) (shared : Shared deps)
      (ctx : RequestAudit) (headers : Headers) (req : RequestHeader) (f : Filtered deps)
      → token_step deps proxy meets shared ctx headers req ≡ err f
      → count f ≡ ctx.response_body_bytes
  unfolding token_step refuse_attest refuse reject
  token_step-count proxy meets shared ctx headers req f h = ground (arith, h)

  machine_step-count :
      (machine : Option (MachineIdentity deps.trust)) (meets : Meets (Shared deps))
      (shared : Shared deps) (ctx : RequestAudit) (s : Session) (f : Filtered deps)
      → machine_step deps machine meets shared ctx s ≡ err f
      → count f ≡ ctx.response_body_bytes
  unfolding machine_step machine_verdict refuse machine_rejected reject
  machine_step-count none meets shared ctx s f h = cc
  machine_step-count (some mi) meets shared ctx s f h = ground (arith, h)

  machine_step-kept :
      (machine : Option (MachineIdentity deps.trust)) (meets : Meets (Shared deps))
      (shared : Shared deps) (ctx : RequestAudit) (s : Session) (r : Shared deps × RequestAudit)
      → machine_step deps machine meets shared ctx s ≡ ok r
      → r.1.response_body_bytes ≡ ctx.response_body_bytes
  unfolding machine_step machine_verdict machine_verified
  machine_step-kept none meets shared ctx s r h = ground (arith, h)
  machine_step-kept (some mi) meets shared ctx s r h = ground (arith, h)

  body_step-count :
      (meets : Meets (Shared deps)) (shared : Shared deps) (ctx : RequestAudit) (p1 : PhaseOne)
      (binding : BodyBinding) (body : Body)
      → count (body_step deps meets shared ctx p1 binding body) ≡ ctx.response_body_bytes
  unfolding body_step bound_body refuse_body commit_step refuse_attest refuse pass reject forward
  body_step-count meets shared ctx p1 binding body = ground arith

  attest-count :
      (proxy : DenBrowserProxy deps) (meets : Meets (Shared deps)) (shared : Shared deps)
      (ctx : RequestAudit) (s : Session)
      → count (returned (attest deps proxy meets shared ctx s)) ≡ ctx.response_body_bytes
  unfolding attest token_verified
  attest-count proxy meets shared ctx s =
      elim (Result-cases (header_step deps shared ctx s.req_header)) [
        | inr (f, early) ↦ rw early (header_step-count shared ctx s.req_header f early)
        | inl (headers, e1) ↦
            elim (Result-cases (preflight_step deps proxy shared ctx s.req_header)) [
              | inr (f, early) ↦
                  rw (e1, early) (preflight_step-count proxy shared ctx s.req_header f early)
              | inl (checked, e2) ↦
                  let kept = preflight_step-kept proxy shared ctx s.req_header checked e2 in
                  let now = meets.after_admit shared in
                  elim (Result-cases
                    (token_step deps proxy meets now checked headers s.req_header)) [
                      | inr (f, early) ↦
                          rw (e1, e2, early)
                            (token_step-count proxy meets now checked headers s.req_header f early
                              ∙ kept)
                      | inl (p1, e3) ↦
                          let known = token_verified checked (binding_of p1.body_binding) in
                          let later = meets.after_headers now in
                          elim (Result-cases
                            (machine_step deps proxy.machine meets later known s)) [
                              | inr (f, early) ↦
                                  rw (e1, e2, e3, early)
                                    (machine_step-count proxy.machine meets later known s f early
                                      ∙ kept)
                              | inl (r, e4) ↦
                                  rw (e1, e2, e3, e4)
                                    (body_step-count meets r.0 r.1 p1 p1.body_binding s.body
                                      ∙ machine_step-kept proxy.machine meets later known s r e4
                                      ∙ kept)
                            ]
                    ]
            ]
      ]

  after_bypass-count :
      (proxy : DenBrowserProxy deps) (meets : Meets (Shared deps)) (shared : Shared deps)
      (ctx : RequestAudit) (s : Session) (subject : Option Text)
      → count (after_bypass deps proxy meets shared ctx s subject) ≡ ctx.response_body_bytes
  unfolding after_bypass pass bypass
  after_bypass-count proxy meets shared ctx s (some subject) = refl
  after_bypass-count proxy meets shared ctx s none = attest-count proxy meets shared ctx s

  after_limit-count :
      (proxy : DenBrowserProxy deps) (meets : Meets (Shared deps)) (shared : Shared deps)
      (ctx : RequestAudit) (s : Session) (limited : Result (Shared deps) (Filtered deps))
      → limit_step deps shared ctx s ≡ limited
      → count (after_limit deps proxy meets ctx s limited) ≡ ctx.response_body_bytes
  unfolding after_limit
  after_limit-count proxy meets shared ctx s (err f) e = limit_step-count shared ctx s f e
  after_limit-count proxy meets shared ctx s (ok charged) e =
      after_bypass-count proxy meets charged ctx s (bypass_subject deps proxy s)

  pub request_filter-count :
      (proxy : DenBrowserProxy deps) (meets : Meets (Shared deps)) (shared : Shared deps)
      (ctx : RequestAudit) (s : Session)
      → (request_filter deps proxy meets shared ctx s).ctx.response_body_bytes
        ≡ ctx.response_body_bytes
  unfolding request_filter
  request_filter-count proxy meets shared ctx s =
      let recorded = record_request deps ctx s.req_header in
      after_limit-count proxy meets shared recorded s (limit_step deps shared recorded s) refl
      ∙ record_request-count ctx s.req_header
