-- ===== src/Proxy/Decision.antt =====
-- How `request_filter` of proxy/src/main.rs ends: each exit records its decision, and the answer to
-- the client agrees with it.
use den_browser.Prelude.{◌≡◌, refl, subst, inl, inr, Option, none, some, Text}
use den_browser.Prelude.Result.{Result, ok, err, Result-cases, >>=-eq-ok}
use den_browser.Audit.Record.{binding_of, Action}
use den_browser.Audit.Request.{RequestAudit, bypass, token_verified}
use den_browser.Proxy.Http.{Session}
use den_browser.Proxy.State.{Deps, Meets, returned, DenBrowserProxy, Shared, Filtered, pass}
use den_browser.Proxy.Steps.{
  record_request, limit_step, bypass_subject, header_step, preflight_step, token_step, machine_step,
}
use den_browser.Proxy.Filter.{attest, after_bypass, after_limit, request_filter}
use den_browser.Proxy.Refusals.{
  IsRefused, IsDecided, refused, passed, limit_step-err, body_step-IsDecided, attest-err,
}

module _ (deps : Deps) where
  body_end :
      (proxy : DenBrowserProxy deps) (meets : Meets (Shared deps)) (shared : Shared deps)
      (ctx : RequestAudit) (s : Session) (f : Filtered deps)
      → attest deps proxy meets shared ctx s ≡ ok f
      → IsDecided deps f
  unfolding attest
  body_end proxy meets shared ctx s f h =
      let (headers, e1, h1) = >>=-eq-ok (header_step deps shared ctx s.req_header) _ h in
      let (checked, e2, h2) = >>=-eq-ok (preflight_step deps proxy shared ctx s.req_header) _ h1 in
      let (p1, e3, h3) =
        >>=-eq-ok
          (token_step deps proxy meets (meets.after_admit shared) checked headers s.req_header) _
          h2 in
      let (identified, e4, h4) =
        >>=-eq-ok
          (machine_step deps proxy.machine meets (meets.after_headers (meets.after_admit shared))
            (token_verified checked (binding_of p1.body_binding)) s)
          _ h3 in
      subst (IsDecided deps) (cc h4)
        (body_step-IsDecided deps meets identified.0 identified.1 p1 p1.body_binding s.body)

  attest-IsDecided :
      (proxy : DenBrowserProxy deps) (meets : Meets (Shared deps)) (shared : Shared deps)
      (ctx : RequestAudit) (s : Session)
      → IsDecided deps (returned (attest deps proxy meets shared ctx s))
  attest-IsDecided proxy meets shared ctx s =
      elim (Result-cases (attest deps proxy meets shared ctx s)) [
        | inl (f, h) ↦ rw h (body_end proxy meets shared ctx s f h)
        | inr (f, h) ↦ rw h (refused (attest-err deps proxy meets shared ctx s f h))
      ]

  after_bypass-IsDecided :
      (proxy : DenBrowserProxy deps) (meets : Meets (Shared deps)) (shared : Shared deps)
      (ctx : RequestAudit) (s : Session) (subject : Option Text)
      → IsDecided deps (after_bypass deps proxy meets shared ctx s subject)
  unfolding after_bypass pass bypass
  after_bypass-IsDecided proxy meets shared ctx s (some subject) =
      passed Action.bypass (inr refl) refl refl refl
  after_bypass-IsDecided proxy meets shared ctx s none = attest-IsDecided proxy meets shared ctx s

  after_limit-IsDecided :
      (proxy : DenBrowserProxy deps) (meets : Meets (Shared deps)) (ctx : RequestAudit)
      (s : Session) (limited : Result (Shared deps) (Filtered deps))
      → ((f : Filtered deps) → limited ≡ err f → IsRefused deps f)
      → IsDecided deps (after_limit deps proxy meets ctx s limited)
  unfolding after_limit
  after_limit-IsDecided proxy meets ctx s (err f) early = refused (early f refl)
  after_limit-IsDecided proxy meets ctx s (ok charged) early =
      after_bypass-IsDecided proxy meets charged ctx s (bypass_subject deps proxy s)

  -- However `request_filter` ends, whatever the request, the configuration, the clocks and the other
  -- requests: either it refuses, records the refusal with a reason, answers with the status of that
  -- reason and returns true, or it records a forward or a bypass, answers nothing and returns false.
  pub request_filter-IsDecided :
      (proxy : DenBrowserProxy deps) (meets : Meets (Shared deps)) (shared : Shared deps)
      (ctx : RequestAudit) (s : Session)
      → IsDecided deps (request_filter deps proxy meets shared ctx s)
  unfolding request_filter
  request_filter-IsDecided proxy meets shared ctx s =
      let recorded = record_request deps ctx s.req_header in
      after_limit-IsDecided proxy meets recorded s (limit_step deps shared recorded s)
        (limit_step-err deps shared recorded s)
