-- ===== src/Proxy/Steps.antt =====
-- The checks of `request_filter` (proxy/src/main.rs), one function for each: it goes on, or it
-- returns early.
use den_browser.Prelude.{
  Bool, true, false, not, ◌&&◌, [], ◌++◌, Option, none, some, Text, Bytes, text, if◌then◌else◌,
  nat_eq,
}
use den_browser.Prelude.Result.{Result, ok, err}
use den_browser.Prelude.Decimal.{show_ℕ}
use den_browser.Net.{IpAddr}
use den_browser.Audit.Reason.{Reason}
use den_browser.Audit.Request.{
  RequestAudit, request, attestation_headers, machine_cert_presented, machine_absent,
  machine_verified, machine_rejected, reject, forward,
}
use den_browser.Attest.Error
use den_browser.Attest.Error.{AttestError}
use den_browser.Attest.NonceCache.{NonceCache}
use den_browser.Attest.Token.{AttestInputs, BodyBinding}
use den_browser.Attest.Verifier.{PhaseOne, commit_nonce, verify_body_and_commit, verify_headers}
use den_browser.RateLimit.{admit}
use den_browser.Passthrough.{authorizes}
use den_browser.Machine.Error.{MachineError, missing, not_base64}
use den_browser.Machine.DnsCache.{Cache}
use den_browser.Machine.{MachineIdentity, VerifiedMachine, verify}
use den_browser.Proxy.Http.{
  Session, Body, RequestHeader, ts_header, nonce_header, token_header, machine_cert_header,
  contains_key, header_str, request_host, path_of, describe_incomplete,
}
use den_browser.Proxy.State.{
  Deps, Meets, Headers, BodyFailure, too_large, read_failed, read_body, bound_body_max,
  DenBrowserProxy, Shared, Filtered, refuse, pass,
}

module _ (deps : Deps) where
  open deps use {crates, limits, nets, trust, calendar}

  abbrev pub client_ip : Session → Option IpAddr
  client_ip s = elim s.client_addr [ none ↦ none | some a ↦ some a.ip ]

  -- What the call records before any check.
  unfoldable pub record_request : RequestAudit → RequestHeader → RequestAudit
  record_request ctx req =
      let named = request ctx req.method (request_host req) in
      let stamped =
        attestation_headers calendar named (header_str req.headers ts_header)
          (header_str req.headers nonce_header) in
      elim (header_str req.headers machine_cert_header) [
        | none ↦ stamped
        | some cert ↦ machine_cert_presented stamped cert
      ]

  unfoldable pub limit_step :
      (Shared deps) → RequestAudit → Session → Result (Shared deps) (Filtered deps)
  limit_step shared ctx s = elim shared.rate_limiter [
    | none ↦ ok shared
    | some limiter ↦ elim (client_ip s) [
      | none ↦ ok shared
      | some ip ↦
          let host : Text = elim (request_host s.req_header) [ none ↦ [] | some h ↦ h ] in
          let (charged, admitted) = admit limits limiter ip (host ++ path_of s.req_header) in
          let after : (Shared deps) = record shared { rate_limiter = some charged } in
          if admitted
          then ok after
          else err (
              refuse deps after
                (reject ctx Reason.rate_limited (text "request rate limit exceeded")) 429)
    ]
  ]

  -- The subject that the bypass authorizes, if it does.
  unfoldable pub bypass_subject : (DenBrowserProxy deps) → Session → Option Text
  bypass_subject proxy s = elim proxy.bypass_policy [
    | none ↦ none
    | some policy ↦ elim (client_ip s) [
      | none ↦ none
      | some ip ↦ elim s.client_cert [ none ↦ none | some cert ↦ authorizes nets policy ip cert ]
    ]
  ]

  abbrev machine_present : RequestHeader → Bool
  machine_present req = contains_key machine_cert_header req.headers

  -- Neither an attestation header nor a machine certificate.
  abbrev pub is_unmarked : RequestHeader → Bool
  is_unmarked req =
      not (contains_key ts_header req.headers)
      && not (contains_key nonce_header req.headers)
      && not (contains_key token_header req.headers)
      && not (machine_present req)

  -- The refusal of a request without a full set of headers.
  unfoldable pub refuse_incomplete : (Shared deps) → RequestAudit → RequestHeader → (Filtered deps)
  refuse_incomplete shared ctx req =
      let has_host : Bool = elim (request_host req) [ none ↦ false | some h ↦ true ] in
      if is_unmarked req
      then refuse deps shared
          (reject ctx Reason.no_attestation_headers (
            text
              "no DenBrowser attestation headers — not DenBrowser, or a DenBrowser not configured for this proxy"))
          403
      else refuse deps shared
          (reject ctx Reason.incomplete_attestation_headers
            (describe_incomplete req.headers has_host (machine_present req)))
          403

  unfoldable pub header_step :
      (Shared deps) → RequestAudit → RequestHeader → Result Headers (Filtered deps)
  unfolding refuse_incomplete
  header_step shared ctx req =
      let refused = refuse_incomplete shared ctx req in
      elim (header_str req.headers ts_header) [
        | none ↦ err refused
        | some ts ↦ elim (header_str req.headers nonce_header) [
          | none ↦ err refused
          | some nonce ↦ elim (header_str req.headers token_header) [
            | none ↦ err refused
            | some token ↦ elim (request_host req) [
              | none ↦ err refused
              | some host ↦ ok (record { ts = ts; nonce = nonce; token = token; host = host })
            ]
          ]
        ]
      ]

  -- A machine certificate that is absent.
  unfoldable pub preflight_step :
      (DenBrowserProxy deps)
      → (Shared deps)
      → RequestAudit
      → RequestHeader
      → Result RequestAudit (Filtered deps)
  preflight_step proxy shared ctx req = elim proxy.machine [
    | none ↦ ok ctx
    | some mi ↦
        if machine_present req
        then ok ctx
        else if mi.required
        then err (refuse deps shared (machine_rejected trust ctx missing) 403)
        else ok (machine_absent ctx)
  ]

  -- The refusal of an attestation error.
  unfoldable pub refuse_attest : (Shared deps) → RequestAudit → AttestError → (Filtered deps)
  refuse_attest shared ctx e =
      refuse deps shared (reject ctx (Error.reason e) (Error.to_string e)) 403

  abbrev pub inputs : Headers → RequestHeader → AttestInputs
  inputs h req = record {
    ts = h.ts;
    nonce_b64 = h.nonce;
    token_b64 = h.token;
    host = h.host;
    method = req.method;
    path = path_of req;
  }

  unfoldable pub token_step :
      (DenBrowserProxy deps)
      → Meets (Shared deps)
      → (Shared deps)
      → RequestAudit
      → Headers
      → RequestHeader
      → Result PhaseOne (Filtered deps)
  unfolding refuse_attest
  token_step proxy meets shared ctx h req =
      elim (verify_headers crates proxy.private_key shared.nonces meets.wall_headers
        (inputs h req)) [ ok p1 ↦ ok p1 | err e ↦ err (refuse_attest shared ctx e) ]

  unfoldable pub machine_verdict :
      Shared deps
      → RequestAudit
      → Result VerifiedMachine MachineError
      → Result (Shared deps × RequestAudit) (Filtered deps)
  machine_verdict shared ctx (ok machine) = ok (shared, machine_verified ctx machine)
  machine_verdict shared ctx (err e) = err (refuse deps shared (machine_rejected trust ctx e) 403)

  -- A certificate that is present, but not visible ASCII, is not base64.
  unfoldable pub check_machine :
      MachineIdentity trust
      → Meets (Shared deps)
      → Shared deps
      → RequestAudit
      → Session
      → Cache × Result VerifiedMachine MachineError
  check_machine mi meets shared ctx s = elim ctx.presented_machine_cert [
    | some cert ↦ verify trust mi shared.dns cert (client_ip s) meets.lookup
    | none ↦ (shared.dns, err not_base64)
  ]

  unfoldable pub machine_step :
      Option (MachineIdentity trust)
      → Meets (Shared deps)
      → Shared deps
      → RequestAudit
      → Session
      → Result (Shared deps × RequestAudit) (Filtered deps)
  unfolding machine_verdict check_machine
  machine_step none meets shared ctx s = ok (shared, ctx)
  machine_step (some mi) meets shared ctx s =
      let checked = check_machine mi meets shared ctx s in
      if not (machine_present s.req_header)
      then ok (shared, ctx)
      else machine_verdict (record shared { dns = checked.0 }) ctx checked.1

  -- The last step of both paths.
  unfoldable pub commit_step :
      (Shared deps) → RequestAudit → NonceCache × Result (Unit {0}) AttestError → (Filtered deps)
  unfolding refuse_attest
  commit_step shared ctx (nonces, ok u) =
      pass deps (record shared { nonces = nonces }) (forward ctx)
  commit_step shared ctx (nonces, err e) = refuse_attest (record shared { nonces = nonces }) ctx e

  unfoldable pub refuse_body : (Shared deps) → RequestAudit → BodyFailure → (Filtered deps)
  refuse_body shared ctx too_large =
      refuse deps shared
        (reject ctx Reason.body_too_large (
          text "bound body exceeds "
          ++ show_ℕ bound_body_max
          ++ text " bytes (must be sent as an unbound upload)"))
        413
  refuse_body shared ctx (read_failed etype) =
      refuse deps shared
        (reject ctx Reason.body_read_failed (text "could not read request body: " ++ etype)) 400

  unfoldable pub bound_body :
      Meets (Shared deps)
      → Shared deps
      → RequestAudit
      → PhaseOne
      → Result Bytes BodyFailure
      → Filtered deps
  unfolding commit_step refuse_body
  bound_body meets before ctx p1 (err failure) = refuse_body before ctx failure
  bound_body meets before ctx p1 (ok bytes) =
      commit_step before ctx
        (verify_body_and_commit before.nonces p1 (crates.sha256 bytes) meets.wall_commit meets.at)

  unfoldable pub body_step :
      Meets (Shared deps)
      → Shared deps
      → RequestAudit
      → PhaseOne
      → BodyBinding
      → Body
      → Filtered deps
  unfolding bound_body
  body_step meets shared ctx p1 BodyBinding.unbound body =
      let before : Shared deps = meets.before_commit shared in
      commit_step before ctx (commit_nonce before.nonces p1 meets.wall_commit meets.at)
  body_step meets shared ctx p1 (BodyBinding.hash expected) body =
      bound_body meets (meets.before_commit shared) ctx p1 (read_body [] body)
