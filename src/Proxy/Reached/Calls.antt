-- ===== src/Proxy/Reached/Calls.antt =====
-- A call of `request_filter` (proxy/src/main.rs) does nothing to the shared state but single steps.
use den_browser.Prelude.{
  ◌≡◌, refl, ap, Option, none, some, Text, arith, inl, inr, Option-cases, [], ◌++◌, subst,
}
use den_browser.Prelude.Result.{Result, ok, err, Result-cases}
use den_browser.Audit.Record.{binding_of}
use den_browser.Audit.Request.{RequestAudit, token_verified}
use den_browser.Attest.Window.{Instant}
use den_browser.Proxy.Http.{request_host, path_of, Session, RequestHeader}
use den_browser.Proxy.State.{
  Deps, Meets, Headers, DenBrowserProxy, Shared, Filtered, refuse, pass, returned,
}
use den_browser.Proxy.Steps.{
  client_ip, record_request, limit_step, header_step, preflight_step, token_step, machine_step,
  bypass_subject, refuse_incomplete, refuse_attest,
}
use den_browser.Proxy.Filter.{attest, after_bypass, after_limit, request_filter}
use den_browser.Proxy.Reached.Access.{left, machine_step-Run, body_step-Run}
use den_browser.Proxy.Reached.{charged, Run, start, then, Run-append, IsFair}

module _ (deps : Deps) (proxy : DenBrowserProxy deps) (until : Instant) where
  open deps use {limits, trust}

  header_step-kept :
      (x : Shared deps) (ctx : RequestAudit) (req : RequestHeader) (f : Filtered deps)
      → header_step deps x ctx req ≡ err f
      → x ≡ f.shared
  unfolding header_step refuse_incomplete refuse
  header_step-kept x ctx req f h = ground (arith, h)

  preflight_step-kept :
      (x : Shared deps) (ctx : RequestAudit) (req : RequestHeader) (f : Filtered deps)
      → preflight_step deps proxy x ctx req ≡ err f
      → x ≡ f.shared
  unfolding preflight_step refuse
  preflight_step-kept x ctx req f h = ground (arith, h)

  token_step-kept :
      (meets : Meets (Shared deps)) (x : Shared deps) (ctx : RequestAudit) (headers : Headers)
      (req : RequestHeader) (f : Filtered deps)
      → token_step deps proxy meets x ctx headers req ≡ err f
      → x ≡ f.shared
  unfolding token_step refuse_attest refuse
  token_step-kept meets x ctx headers req f h = ground (arith, h)

  stays : (x y : Shared deps) → x ≡ y → Run deps proxy until x y
  stays x y e = subst (Run deps proxy until x) e start

  attest-Run :
      (meets : Meets (Shared deps)) (x : Shared deps) (ctx : RequestAudit) (s : Session)
      → IsFair deps proxy until meets
      → Run deps proxy until x (returned (attest deps proxy meets x ctx s)).shared
  unfolding attest
  attest-Run meets x ctx s fair = elim (Result-cases (header_step deps x ctx s.req_header)) [
    | inr (f, early) ↦ rw early (stays x f.shared (header_step-kept x ctx s.req_header f early))
    | inl (headers, e1) ↦ elim (Result-cases (preflight_step deps proxy x ctx s.req_header)) [
      | inr (f, early) ↦
          rw (e1, early) (stays x f.shared (preflight_step-kept x ctx s.req_header f early))
      | inl (checked, e2) ↦
          let now = meets.after_admit x in
          elim (Result-cases (token_step deps proxy meets now checked headers s.req_header)) [
            | inr (f, early) ↦
                rw (e1, e2, early)
                  (Run-append deps proxy x now f.shared (fair.after_admit x) (
                    stays now f.shared
                      (token_step-kept meets now checked headers s.req_header f early)))
            | inl (p1, e3) ↦
                let known = token_verified checked (binding_of p1.body_binding) in
                let later = meets.after_headers now in
                let waited =
                  Run-append deps proxy x now later (fair.after_admit x) (fair.after_headers now) in
                let checks =
                  machine_step-Run deps proxy until meets proxy.machine later known s fair refl in
                elim (Result-cases (machine_step deps proxy.machine meets later known s)) [
                  | inr (f, early) ↦
                      rw (e1, e2, e3, early)
                        (Run-append deps proxy x later f.shared waited
                          (subst (Run deps proxy until later) (ap (left deps) early) checks))
                  | inl (r, e4) ↦
                      rw (e1, e2, e3, e4)
                        (Run-append deps proxy x later _ waited (
                          Run-append deps proxy later r.0 _
                            (subst (Run deps proxy until later) (ap (left deps) e4) checks)
                            (body_step-Run deps proxy until meets r.0 r.1 p1 p1.body_binding s.body
                              fair)))
                ]
          ]
    ]
  ]

  after_bypass-Run :
      (meets : Meets (Shared deps)) (x : Shared deps) (ctx : RequestAudit) (s : Session)
      (subject : Option Text)
      → IsFair deps proxy until meets
      → Run deps proxy until x (after_bypass deps proxy meets x ctx s subject).shared
  unfolding after_bypass pass
  after_bypass-Run meets x ctx s (some subject) fair = start
  after_bypass-Run meets x ctx s none fair = attest-Run meets x ctx s fair

  -- Where the rate limiter leaves the shared state: it is charged, or there is nothing to charge.
  abbrev charged_to : Result (Shared deps) (Filtered deps) → Shared deps
  charged_to (ok after) = after
  charged_to (err f) = f.shared

  limit_step-Run :
      (x : Shared deps) (ctx : RequestAudit) (s : Session)
      → Run deps proxy until x (charged_to (limit_step deps x ctx s))
  unfolding limit_step refuse
  limit_step-Run x ctx s = elim (Option-cases x.rate_limiter) [
    | inl off ↦ stays x _ (ground (arith, off))
    | inr (limiter, on) ↦ elim (Option-cases (client_ip deps s)) [
      | inl unknown ↦ stays x _ (ground (arith, on, unknown))
      | inr (ip, known) ↦
          let host : Text = elim (request_host s.req_header) [ none ↦ [] | some h ↦ h ] in
          let target = host ++ path_of s.req_header in
          then x _ start (charged limiter ip target on (ground (arith, on, known)))
    ]
  ]

  -- Whatever a call of `request_filter` does to the shared state, and however it ends, is a run of
  -- single steps of the rate limiter, the DNS cache and the nonce cache, if what others do while it
  -- waits is.
  pub request_filter-Run :
      (meets : Meets (Shared deps)) (x : Shared deps) (ctx : RequestAudit) (s : Session)
      → IsFair deps proxy until meets
      → Run deps proxy until x (request_filter deps proxy meets x ctx s).shared
  unfolding request_filter after_limit
  request_filter-Run meets x ctx s fair =
      let recorded = record_request deps ctx s.req_header in
      let admitted = limit_step-Run x recorded s in
      elim (Result-cases (limit_step deps x recorded s)) [
        | inr (f, early) ↦ rw early (subst (Run deps proxy until x) (ap charged_to early) admitted)
        | inl (after, e) ↦ rw e (
            Run-append deps proxy x after _
              (subst (Run deps proxy until x) (ap charged_to e) admitted)
              (after_bypass-Run meets after recorded s (bypass_subject deps proxy s) fair))
      ]
