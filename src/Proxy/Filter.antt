-- ===== src/Proxy/Filter.antt =====
-- `request_filter` of proxy/src/main.rs: its checks in their order.
use den_browser.Prelude.{none, some, nat_eq}
use den_browser.Prelude.{Option, none, some, Text}
use den_browser.Prelude.Result.{Result, ok, err, ◌>>=◌}
use den_browser.Audit.Record.{binding_of}
use den_browser.Audit.Request.{RequestAudit, token_verified, bypass}
use den_browser.Proxy.Http.{Session}
use den_browser.Proxy.State.{Deps, Meets, returned, DenBrowserProxy, Shared, Filtered, pass}
use den_browser.Proxy.Steps.{
  record_request, limit_step, bypass_subject, header_step, preflight_step, token_step, machine_step,
  body_step,
}

module _ (deps : Deps) where
  open deps use {crates, limits, nets, trust, calendar}

  -- Everything after the bypass.
  unfoldable pub attest :
      (DenBrowserProxy deps)
      → Meets (Shared deps)
      → (Shared deps)
      → RequestAudit
      → Session
      → Result (Filtered deps) (Filtered deps)
  unfolding header_step preflight_step token_step machine_step body_step
  attest proxy meets shared ctx s = do
    headers ← header_step deps shared ctx s.req_header
    checked ← preflight_step deps proxy shared ctx s.req_header
    let now : (Shared deps) = meets.after_admit shared
    p1 ← token_step deps proxy meets now checked headers s.req_header
    let known : RequestAudit = token_verified checked (binding_of p1.body_binding)
    identified ← machine_step deps proxy.machine meets (meets.after_headers now) known s
    ok (body_step deps meets identified.0 identified.1 p1 p1.body_binding s.body)

  unfoldable pub after_bypass :
      DenBrowserProxy deps
      → Meets (Shared deps)
      → Shared deps
      → RequestAudit
      → Session
      → Option Text
      → Filtered deps
  unfolding attest
  after_bypass proxy meets shared ctx s (some subject) = pass deps shared (bypass ctx subject)
  after_bypass proxy meets shared ctx s none = returned (attest proxy meets shared ctx s)

  unfoldable pub after_limit :
      DenBrowserProxy deps
      → Meets (Shared deps)
      → RequestAudit
      → Session
      → Result (Shared deps) (Filtered deps)
      → Filtered deps
  unfolding after_bypass bypass_subject
  after_limit proxy meets ctx s (err refused) = refused
  after_limit proxy meets ctx s (ok charged) =
      after_bypass proxy meets charged ctx s (bypass_subject deps proxy s)

  unfoldable pub request_filter :
      DenBrowserProxy deps
      → Meets (Shared deps)
      → Shared deps
      → RequestAudit
      → Session
      → Filtered deps
  unfolding record_request limit_step after_limit
  request_filter proxy meets shared ctx s =
      let recorded = record_request deps ctx s.req_header in
      after_limit proxy meets recorded s (limit_step deps shared recorded s)
