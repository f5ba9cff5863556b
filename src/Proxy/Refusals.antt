-- ===== src/Proxy/Refusals.antt =====
-- The refusals of `request_filter` (proxy/src/main.rs): each check that returns early records a
-- reason and answers with its status.
use den_browser.Prelude.{
  ℕ, ◌≡◌, refl, ap, subst, sym, inl, inr, if◌then◌else◌, Bool, true, false, Option, none, some,
  Text, Bytes, [], text, arith, ◌⊎◌,
}
use den_browser.Prelude.Result.{Result, ok, err, ◌>>=◌, Result-cases}
use den_browser.Audit.Reason.{Reason, rate_limited}
use den_browser.Audit.Record.{binding_of, Action}
use den_browser.Audit.Request.{
  RequestAudit, refusal_action, reject, machine_rejected, forward, token_verified,
}
use den_browser.Attest.Error
use den_browser.Attest.Error.{AttestError}
use den_browser.Attest.NonceCache.{NonceCache}
use den_browser.Attest.Verifier.{verify_headers, PhaseOne}
use den_browser.Machine.Error.{MachineError, missing}
use den_browser.Machine
use den_browser.Machine.{VerifiedMachine, MachineIdentity}
use den_browser.Attest.Token.{BodyBinding}
use den_browser.Proxy.Http.{Session, RequestHeader, Body}
use den_browser.Proxy.State.{
  Deps, Meets, Headers, BodyFailure, too_large, read_failed, read_body, DenBrowserProxy, Shared,
  Filtered, refuse, pass,
}
use den_browser.Proxy.Steps.{
  limit_step, header_step, preflight_step, token_step, machine_step, body_step, inputs, is_unmarked,
  refuse_incomplete, refuse_attest, commit_step, refuse_body, machine_verdict, check_machine,
  bound_body,
}
use den_browser.Proxy.Filter.{attest}

-- The status of the answer to a refused request.
pub status_of : Reason → ℕ
status_of Reason.rate_limited = 429
status_of Reason.body_too_large = 413
status_of Reason.body_read_failed = 400
status_of _ = 403

attest_status : (e : AttestError) → 403 ≡ status_of (Error.reason e)
unfolding Error.reason status_of
attest_status e = ground arith

machine_status : (e : MachineError) → 403 ≡ status_of (Machine.Error.reason e)
unfolding Machine.Error.reason status_of
machine_status e = ground arith

module _ (deps : Deps) where
  -- A refusal is recorded with its reason, and answered with the status of that reason.
  pub record IsRefused (f : Filtered deps) : Type 0 where
    pub reason : Reason
    pub recorded : f.ctx.action ≡ some (refusal_action reason)
    pub recorded_reason : f.ctx.reason ≡ some reason
    pub status : f.response ≡ some (status_of reason)
    pub kept : f.answered ≡ true

  -- A request that goes upstream is recorded as such, and gets no answer here.
  pub data IsDecided (f : Filtered deps) : Type 0 where
    refused : IsRefused f → IsDecided f
    passed :
        (a : Action)
        → (a ≡ Action.forward) ⊎ (a ≡ Action.bypass)
        → f.ctx.action ≡ some a
        → f.response ≡ none
        → f.answered ≡ false
        → IsDecided f

  refusal :
      {f : Filtered deps} (r : Reason)
      → f.ctx.action ≡ some (refusal_action r)
      → f.ctx.reason ≡ some r
      → f.response ≡ some (status_of r)
      → f.answered ≡ true
      → IsRefused f
  refusal r a b c d = record { reason = r; recorded = a; recorded_reason = b; status = c; kept = d }

  -- `f` is the refusal of `ctx` for the reason `r`.
  IsRefusal : Filtered deps → RequestAudit → Reason → Text → Type 0
  IsRefusal f ctx r message =
      (f.ctx ≡ reject ctx r message) × (f.response ≡ some (status_of r)) × (f.answered ≡ true)

  refusal-IsRefused :
      (f : Filtered deps) (ctx : RequestAudit) (r : Reason) (message : Text)
      → IsRefusal f ctx r message
      → IsRefused f
  unfolding IsRefusal reject
  refusal-IsRefused f ctx r message (same, status, answered) =
      refusal r (ap (λ c. c.action) same) (ap (λ c. c.reason) same) status answered

  pub limit_step-err :
      (shared : Shared deps) (ctx : RequestAudit) (s : Session) (f : Filtered deps)
      → limit_step deps shared ctx s ≡ err f
      → IsRefused f
  unfolding IsRefusal limit_step refuse status_of
  limit_step-err shared ctx s f h =
      refusal-IsRefused f ctx rate_limited (text "request rate limit exceeded") (ground arith)

  either-IsRefused :
      (b : Bool) (shared : Shared deps) (ctx : RequestAudit) (m n : Text)
      → IsRefused (
          if b
          then refuse deps shared (reject ctx Reason.no_attestation_headers m) 403
          else refuse deps shared (reject ctx Reason.incomplete_attestation_headers n) 403)
  unfolding refuse reject status_of
  either-IsRefused true shared ctx m n = refusal Reason.no_attestation_headers refl refl refl refl
  either-IsRefused false shared ctx m n =
      refusal Reason.incomplete_attestation_headers refl refl refl refl

  pub incomplete-IsRefused :
      (shared : Shared deps) (ctx : RequestAudit) (req : RequestHeader)
      → IsRefused (refuse_incomplete deps shared ctx req)
  unfolding refuse_incomplete
  incomplete-IsRefused shared ctx req = either-IsRefused (is_unmarked deps req) shared ctx _ _

  header_step-err :
      (shared : Shared deps) (ctx : RequestAudit) (req : RequestHeader) (f : Filtered deps)
      → header_step deps shared ctx req ≡ err f
      → f ≡ refuse_incomplete deps shared ctx req
  unfolding header_step
  header_step-err shared ctx req f h = ground arith

  preflight_step-err :
      (proxy : DenBrowserProxy deps) (shared : Shared deps) (ctx : RequestAudit)
      (req : RequestHeader) (f : Filtered deps)
      → preflight_step deps proxy shared ctx req ≡ err f
      → f ≡ refuse deps shared (machine_rejected deps.trust ctx missing) 403
  unfolding preflight_step
  preflight_step-err proxy shared ctx req f h = ground arith

  pub refuse_attest-IsRefused :
      (shared : Shared deps) (ctx : RequestAudit) (e : AttestError)
      → IsRefused (refuse_attest deps shared ctx e)
  unfolding refuse_attest refuse status_of Error.reason reject
  refuse_attest-IsRefused shared ctx e =
      refusal (Error.reason e) refl refl (ap some (attest_status e)) refl

  machine-IsRefused :
      (shared : Shared deps) (ctx : RequestAudit) (e : MachineError)
      → IsRefused (refuse deps shared (machine_rejected deps.trust ctx e) 403)
  unfolding machine_rejected refuse status_of reject Machine.Error.reason
  machine-IsRefused shared ctx e =
      refusal (Machine.Error.reason e) refl refl (ap some (machine_status e)) refl

  token_step-err :
      (proxy : DenBrowserProxy deps) (meets : Meets (Shared deps)) (shared : Shared deps)
      (ctx : RequestAudit) (h : Headers) (req : RequestHeader) (f : Filtered deps)
      → token_step deps proxy meets shared ctx h req ≡ err f
      → IsRefused f
  unfolding token_step
  token_step-err proxy meets shared ctx h req f e =
      elim (Result-cases (
        verify_headers deps.crates proxy.private_key shared.nonces meets.wall_headers
          (inputs deps h req))) [
            | inl (p1, passed') ↦ absurd (ground (arith, passed'))
            | inr (x, failed) ↦
                subst IsRefused (ground (arith, failed)) (refuse_attest-IsRefused shared ctx x)
          ]

  pub commit_step-IsDecided :
      (shared : Shared deps) (ctx : RequestAudit) (nonces : NonceCache)
      (r : Result (Unit {0}) AttestError)
      → IsDecided (commit_step deps shared ctx (nonces, r))
  unfolding commit_step pass forward
  commit_step-IsDecided shared ctx nonces (ok u) = passed Action.forward (inl refl) refl refl refl
  commit_step-IsDecided shared ctx nonces (err e) =
      refused (refuse_attest-IsRefused (record shared { nonces = nonces }) ctx e)

  pub refuse_body-IsRefused :
      (shared : Shared deps) (ctx : RequestAudit) (x : BodyFailure)
      → IsRefused (refuse_body deps shared ctx x)
  unfolding refuse_body refuse reject status_of
  refuse_body-IsRefused shared ctx too_large = refusal Reason.body_too_large refl refl refl refl
  refuse_body-IsRefused shared ctx (read_failed t) =
      refusal Reason.body_read_failed refl refl refl refl

  machine_verdict-err :
      (shared : Shared deps) (ctx : RequestAudit) (r : Result VerifiedMachine MachineError)
      (f : Filtered deps)
      → machine_verdict deps shared ctx r ≡ err f
      → IsRefused f
  unfolding machine_verdict
  machine_verdict-err shared ctx (ok m) f h = cc
  machine_verdict-err shared ctx (err e) f h =
      subst IsRefused (cc h) (machine-IsRefused shared ctx e)

  if-err {ℓ} :
      {A : Type ℓ} (b : Bool) (a : A) (r : Result A (Filtered deps)) (f : Filtered deps)
      → (if b then ok a else r) ≡ err f
      → r ≡ err f
  if-err true a r f h = cc
  if-err false a r f h = h

  machine_step-err :
      (machine : Option (MachineIdentity deps.trust)) (meets : Meets (Shared deps))
      (shared : Shared deps) (ctx : RequestAudit) (s : Session) (f : Filtered deps)
      → machine_step deps machine meets shared ctx s ≡ err f
      → IsRefused f
  unfolding machine_step
  machine_step-err none meets shared ctx s f h = cc
  machine_step-err (some mi) meets shared ctx s f h =
      let checked = check_machine deps mi meets shared ctx s in
      machine_verdict-err (record shared { dns = checked.0 }) ctx checked.1 f
        (if-err _ (shared, ctx) _ f h)

  bound_body-IsDecided :
      (meets : Meets (Shared deps)) (before : Shared deps) (ctx : RequestAudit) (p1 : PhaseOne)
      (read : Result Bytes BodyFailure)
      → IsDecided (bound_body deps meets before ctx p1 read)
  unfolding bound_body
  bound_body-IsDecided meets before ctx p1 (err failure) =
      refused (refuse_body-IsRefused before ctx failure)
  bound_body-IsDecided meets before ctx p1 (ok bytes) = commit_step-IsDecided before ctx _ _

  pub body_step-IsDecided :
      (meets : Meets (Shared deps)) (shared : Shared deps) (ctx : RequestAudit) (p1 : PhaseOne)
      (binding : BodyBinding) (body : Body)
      → IsDecided (body_step deps meets shared ctx p1 binding body)
  unfolding body_step
  body_step-IsDecided meets shared ctx p1 BodyBinding.unbound body =
      commit_step-IsDecided (meets.before_commit shared) ctx _ _
  body_step-IsDecided meets shared ctx p1 (BodyBinding.hash expected) body =
      bound_body-IsDecided meets (meets.before_commit shared) ctx p1 (read_body [] body)

  bind-err {ℓ κ} :
      {A : Type ℓ} {B : Type κ} (m : Result A (Filtered deps)) (k : A → Result B (Filtered deps))
      (f : Filtered deps)
      → ((g : Filtered deps) → m ≡ err g → IsRefused g)
      → ((a : A) → k a ≡ err f → IsRefused f)
      → (m >>= k) ≡ err f
      → IsRefused f
  bind-err (ok a) k f early later h = later a h
  bind-err (err g) k f early later h = subst IsRefused (cc h) (early g refl)

  -- Where `attest` returns early, it refuses.
  pub attest-err :
      (proxy : DenBrowserProxy deps) (meets : Meets (Shared deps)) (shared : Shared deps)
      (ctx : RequestAudit) (s : Session) (f : Filtered deps)
      → attest deps proxy meets shared ctx s ≡ err f
      → IsRefused f
  unfolding attest
  attest-err proxy meets shared ctx s f =
      let req = s.req_header in
      let now = meets.after_admit shared in
      bind-err (header_step deps shared ctx req) _ f
        (λ g h.
          subst IsRefused (sym (header_step-err shared ctx req g h))
            (incomplete-IsRefused shared ctx req))
        (λ headers.
          bind-err (preflight_step deps proxy shared ctx req) _ f
            (λ g h.
              subst IsRefused (sym (preflight_step-err proxy shared ctx req g h))
                (machine-IsRefused shared ctx missing))
            (λ checked.
              bind-err (token_step deps proxy meets now checked headers req) _ f
                (token_step-err proxy meets now checked headers req)
                (λ p1.
                  bind-err
                    (machine_step deps proxy.machine meets (meets.after_headers now)
                      (token_verified checked (binding_of p1.body_binding)) s)
                    _ f
                    (machine_step-err proxy.machine meets (meets.after_headers now)
                      (token_verified checked (binding_of p1.body_binding)) s)
                    (λ identified h. absurd (cc h)))))
