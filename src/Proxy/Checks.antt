-- ===== src/Proxy/Checks.antt =====
-- What the checks of `request_filter` (proxy/src/main.rs) establish where they let a request pass.
use den_browser.Prelude.{
  ◌≡◌, refl, sym, inl, inr, if◌then◌else◌, Bool, true, false, Option, none, some, Text, Bytes, [],
  arith,
}
use den_browser.Prelude.Result.{Result, ok, err}
use den_browser.Audit.Reason.{Reason}
use den_browser.Audit.Record.{Action}
use den_browser.Audit.Request.{RequestAudit, refusal_action}
use den_browser.Attest.Error.{AttestError}
use den_browser.Attest.NonceCache.{NonceCache}
use den_browser.Attest.Verifier.{verify_headers, PhaseOne}
use den_browser.Machine.Error.{MachineError}
use den_browser.Machine.{VerifiedMachine, MachineIdentity}
use den_browser.Attest.Token.{BodyBinding}
use den_browser.Proxy.Http.{Session, RequestHeader, Body}
use den_browser.Proxy.State.{
  Deps, Meets, Headers, BodyFailure, read_body, DenBrowserProxy, Shared, Filtered, pass,
}
use den_browser.Proxy.Steps.{
  header_step, preflight_step, token_step, machine_step, body_step, inputs, commit_step,
  machine_verdict, check_machine, bound_body,
}
use den_browser.Proxy.Refusals.{IsRefused}
use den_browser.Prelude.{◌≢◌, ◌∙◌, eq_iff, nat_eq, list_eq, Bool-cases, not}
use den_browser.Attest.Window.{SystemTime, Instant}
use den_browser.Attest.Verifier.{commit_nonce, verify_body_and_commit, body_matches}
use den_browser.Audit.Request.{machine_absent}
use den_browser.Machine.{Lookup, verify, VerifiedMachine, MachineIdentity}
use den_browser.Machine.DnsCache.{Cache}
use den_browser.Proxy.Http.{
  contains_key, machine_cert_header, header_str, ts_header, nonce_header, token_header,
  request_host,
}
use den_browser.Proxy.Refusals.{refuse_attest-IsRefused, refuse_body-IsRefused}
use den_browser.Proxy.Steps.{client_ip}

elsewhere : (r : Reason) → some (refusal_action r) ≢ some Action.forward
unfolding refusal_action
elsewhere r h = ground arith

module _ (deps : Deps) where
  open deps use {crates, trust}

  pub refused_elsewhere :
      (f : Filtered deps) → IsRefused deps f → f.ctx.action ≢ some Action.forward
  unfolding refusal_action
  refused_elsewhere f r h = elsewhere r.reason (sym r.recorded ∙ h)

  -- A machine certificate in the request was verified; one may be absent only where it is not
  -- required.
  pub data MachinePasses (s : Session) (l : Lookup) (presented : Option Text)
      : Option (MachineIdentity trust) → Type 0 where
    disabled : MachinePasses s l presented none
    absent :
        (mi : MachineIdentity trust)
        → contains_key machine_cert_header s.req_header.headers ≡ false
        → mi.required ≡ false
        → MachinePasses s l presented (some mi)
    verified :
        (mi : MachineIdentity trust) (cert : Text) (cache : Cache) (m : VerifiedMachine)
        → presented ≡ some cert
        → (verify trust mi cache cert (client_ip deps s) l).1 ≡ ok m
        → MachinePasses s l presented (some mi)

  abbrev pub BodyMatches : BodyBinding → Body → Type 0
  BodyMatches BodyBinding.unbound body = Unit {0}
  BodyMatches (BodyBinding.hash expected) body =
      (bytes : Bytes) × (read_body [] body ≡ ok bytes) × (expected ≡ crates.sha256 bytes)

  commit_step-forward :
      (shared : Shared deps) (ctx : RequestAudit) (r : NonceCache × Result (Unit {0}) AttestError)
      → (commit_step deps shared ctx r).ctx.action ≡ some Action.forward
      → r ≡ ((commit_step deps shared ctx r).shared.nonces, ok tt)
  unfolding commit_step pass
  commit_step-forward shared ctx (nonces, ok u) h = refl
  commit_step-forward shared ctx (nonces, err e) h = absurd (
      refused_elsewhere _ (refuse_attest-IsRefused deps (record shared { nonces = nonces }) ctx e)
        h)

  verify_body-commit :
      (cache : NonceCache) (p1 : PhaseOne) (expected actual : Bytes) (wall : SystemTime)
      (now : Instant) (after : NonceCache)
      → p1.body_binding ≡ BodyBinding.hash expected
      → verify_body_and_commit cache p1 actual wall now ≡ (after, ok tt)
      → (commit_nonce cache p1 wall now ≡ (after, ok tt)) × (expected ≡ actual)
  unfolding verify_body_and_commit body_matches
  verify_body-commit cache p1 expected actual wall now after same h =
      ground (arith, eq_iff expected actual)

  bound_body-forward :
      (meets : Meets (Shared deps)) (before : Shared deps) (ctx : RequestAudit) (p1 : PhaseOne)
      (expected : Bytes) (read : Result Bytes BodyFailure)
      → p1.body_binding ≡ BodyBinding.hash expected
      → (bound_body deps meets before ctx p1 read).ctx.action ≡ some Action.forward
      → (commit_nonce before.nonces p1 meets.wall_commit meets.at
          ≡ ((bound_body deps meets before ctx p1 read).shared.nonces, ok tt))
        × ((bytes : Bytes) × (read ≡ ok bytes) × (expected ≡ crates.sha256 bytes))
  unfolding bound_body
  bound_body-forward meets before ctx p1 expected (err failure) same h =
      absurd (refused_elsewhere _ (refuse_body-IsRefused deps before ctx failure) h)
  bound_body-forward meets before ctx p1 expected (ok bytes) same h =
      let actual = crates.sha256 bytes in
      let done' = verify_body_and_commit before.nonces p1 actual meets.wall_commit meets.at in
      let both =
        verify_body-commit before.nonces p1 expected actual meets.wall_commit meets.at _ same
          (commit_step-forward before ctx done' h) in
      (both.0, (bytes, refl, both.1))

  pub body_step-forward :
      (meets : Meets (Shared deps)) (shared : Shared deps) (ctx : RequestAudit) (p1 : PhaseOne)
      (binding : BodyBinding) (body : Body)
      → p1.body_binding ≡ binding
      → (body_step deps meets shared ctx p1 binding body).ctx.action ≡ some Action.forward
      → (commit_nonce (meets.before_commit shared).nonces p1 meets.wall_commit meets.at
          ≡ ((body_step deps meets shared ctx p1 binding body).shared.nonces, ok tt))
        × BodyMatches binding body
  unfolding body_step
  body_step-forward meets shared ctx p1 BodyBinding.unbound body same h =
      (commit_step-forward (meets.before_commit shared) ctx _ h, tt)
  body_step-forward meets shared ctx p1 (BodyBinding.hash expected) body same h =
      bound_body-forward meets (meets.before_commit shared) ctx p1 expected (read_body [] body) same
        h

  machine_verdict-ok :
      (shared : Shared deps) (ctx : RequestAudit) (r : Result VerifiedMachine MachineError)
      (next : Shared deps × RequestAudit)
      → machine_verdict deps shared ctx r ≡ ok next
      → (m : VerifiedMachine) × (r ≡ ok m)
  unfolding machine_verdict
  machine_verdict-ok shared ctx (ok m) next h = (m, refl)
  machine_verdict-ok shared ctx (err e) next h = cc

  check_machine-ok :
      (mi : MachineIdentity trust) (meets : Meets (Shared deps)) (shared : Shared deps)
      (ctx : RequestAudit) (s : Session) (presented : Option Text) (m : VerifiedMachine)
      → ctx.presented_machine_cert ≡ presented
      → (check_machine deps mi meets shared ctx s).1 ≡ ok m
      → MachinePasses s meets.lookup presented (some mi)
  unfolding check_machine
  check_machine-ok mi meets shared ctx s none m same h = absurd (ground (arith, same))
  check_machine-ok mi meets shared ctx s (some cert) m same h =
      verified mi cert shared.dns m refl (ground (arith, same))

  preflight-kept :
      (proxy : DenBrowserProxy deps) (shared : Shared deps) (ctx checked : RequestAudit)
      (req : RequestHeader)
      → preflight_step deps proxy shared ctx req ≡ ok checked
      → ctx.presented_machine_cert ≡ checked.presented_machine_cert
  unfolding preflight_step machine_absent
  preflight-kept proxy shared ctx checked req h = ground arith

  preflight-relaxed :
      (proxy : DenBrowserProxy deps) (mi : MachineIdentity trust) (shared : Shared deps)
      (ctx checked : RequestAudit) (req : RequestHeader)
      → proxy.machine ≡ some mi
      → contains_key machine_cert_header req.headers ≡ false
      → preflight_step deps proxy shared ctx req ≡ ok checked
      → mi.required ≡ false
  unfolding preflight_step
  preflight-relaxed proxy mi shared ctx checked req same away h = ground arith

  if_not-true {ℓ} :
      {A : Type ℓ} (b : Bool) (x y z : A) → b ≡ true → (if not b then x else y) ≡ z → y ≡ z
  if_not-true true x y z e h = h
  if_not-true false x y z e h = cc

  -- The preflight and the later step together.
  pub machine_checks :
      (machine : Option (MachineIdentity trust)) (proxy : DenBrowserProxy deps)
      (meets : Meets (Shared deps)) (early late : Shared deps) (ctx checked known : RequestAudit)
      (s : Session) (next : Shared deps × RequestAudit)
      → proxy.machine ≡ machine
      → preflight_step deps proxy early ctx s.req_header ≡ ok checked
      → known.presented_machine_cert ≡ checked.presented_machine_cert
      → machine_step deps machine meets late known s ≡ ok next
      → MachinePasses s meets.lookup ctx.presented_machine_cert machine
  unfolding machine_step
  machine_checks none proxy meets early late ctx checked known s next same e1 kept e2 = disabled
  machine_checks (some mi) proxy meets early late ctx checked known s next same e1 kept e2 =
      elim (Bool-cases (contains_key machine_cert_header s.req_header.headers)) [
        | inl here ↦
            let checked_machine = check_machine deps mi meets late known s in
            let verdict =
              machine_verdict-ok (record late { dns = checked_machine.0 }) known checked_machine.1
                next
                (if_not-true (contains_key machine_cert_header s.req_header.headers) _ _ _ here
                  e2) in
            check_machine-ok mi meets late known s ctx.presented_machine_cert verdict.0
              (kept ∙ sym (preflight-kept proxy early ctx checked s.req_header e1)) verdict.1
        | inr away ↦
            absent mi away (preflight-relaxed proxy mi early ctx checked s.req_header same away e1)
      ]

  pub token_step-ok :
      (proxy : DenBrowserProxy deps) (meets : Meets (Shared deps)) (shared : Shared deps)
      (ctx : RequestAudit) (h : Headers) (req : RequestHeader) (p1 : PhaseOne)
      → token_step deps proxy meets shared ctx h req ≡ ok p1
      → verify_headers crates proxy.private_key shared.nonces meets.wall_headers (inputs deps h req)
        ≡ ok p1
  unfolding token_step
  token_step-ok proxy meets shared ctx h req p1 e = ground arith

  -- Each header of the attestation is there, and readable, and so is a host.
  pub header_step-ok :
      (shared : Shared deps) (ctx : RequestAudit) (req : RequestHeader) (h : Headers)
      → header_step deps shared ctx req ≡ ok h
      → (header_str req.headers ts_header ≡ some h.ts)
        × (header_str req.headers nonce_header ≡ some h.nonce)
        × (header_str req.headers token_header ≡ some h.token)
        × (request_host req ≡ some h.host)
  unfolding header_step
  header_step-ok shared ctx req h e = ground arith
