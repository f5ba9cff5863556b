-- ===== src/Proxy/Reached/Access.antt =====
-- What the machine check and the body step of `request_filter` (proxy/src/main.rs) do to the shared
-- state, as runs of single steps.
use den_browser.Prelude.{
  ◌≡◌, refl, sym, Option, none, some, Text, Bytes, arith, inl, inr, Bool-cases, Option-cases, [],
  ◌⊎◌, subst,
}
use den_browser.Prelude.Result.{Result, ok, err, Result-cases}
use den_browser.Net.{IpAddr}
use den_browser.Audit.Request.{RequestAudit}
use den_browser.Attest.Error.{AttestError}
use den_browser.Attest.Window.{Instant}
use den_browser.Attest.NonceCache.{NonceCache}
use den_browser.Attest.Token.{BodyBinding}
use den_browser.Attest.Verifier.{PhaseOne, commit_nonce, verify_body_and_commit, body_matches}
use den_browser.Machine.DnsCache.{fresh}
use den_browser.Machine.{MachineIdentity, verify, verify_cert, resolve_cached}
use den_browser.Proxy.Http.{contains_key, machine_cert_header, Session, Body}
use den_browser.Proxy.State.{
  Deps, Meets, DenBrowserProxy, Shared, Filtered, BodyFailure, refuse, pass, read_body,
}
use den_browser.Proxy.Steps.{
  machine_step, body_step, refuse_attest, machine_verdict, check_machine, commit_step, refuse_body,
  bound_body,
}
use den_browser.Proxy.Reached.{resolved, committed, Run, start, then, Run-append, IsFair}

module _ (deps : Deps) where
  -- Where a step that may refuse leaves the shared state.
  abbrev pub left : Result (Shared deps × RequestAudit) (Filtered deps) → Shared deps
  left (ok r) = r.0
  left (err f) = f.shared

module _ (deps : Deps) (proxy : DenBrowserProxy deps) (until : Instant) where
  open deps use {limits, trust}

  -- Where `resolve_cached` leaves the cache.
  resolve_cached-Run :
      (meets : Meets (Shared deps)) (mi : MachineIdentity trust) (x : Shared deps) (host : Text)
      → IsFair deps proxy until meets
      → proxy.machine ≡ some mi
      → Run deps proxy until x
          (record x { dns = (resolve_cached trust mi x.dns host meets.lookup).0 })
  unfolding resolve_cached
  resolve_cached-Run meets mi x host fair e =
      let l = meets.lookup in
      elim (Option-cases (fresh mi.ttls x.dns host l.asked)) [
        | inr (addrs, hit) ↦ rw (hit, resolve_cached) start
        | inl missed ↦
            let asked : Shared deps = record x { dns = l.meanwhile x.dns } in
            rw (missed, resolve_cached)
              (then asked _ (fair.meanwhile x)
                (resolved mi host (l.answer host) l.swept l.answered e refl))
      ]

  verify-Run :
      (meets : Meets (Shared deps)) (mi : MachineIdentity trust) (x : Shared deps) (cert : Text)
      (client : Option IpAddr)
      → IsFair deps proxy until meets
      → proxy.machine ≡ some mi
      → Run deps proxy until x
          (record x { dns = (verify trust mi x.dns cert client meets.lookup).0 })
  unfolding verify
  verify-Run meets mi x cert none fair e = start
  verify-Run meets mi x cert (some ip) fair e = elim (Result-cases (verify_cert trust mi cert)) [
    | inr (f, failed) ↦ rw (failed, verify) start
    | inl (m, names) ↦ rw (names, verify) (resolve_cached-Run meets mi x m.hostname fair e)
  ]

  check_machine-Run :
      (meets : Meets (Shared deps)) (mi : MachineIdentity trust) (x : Shared deps)
      (ctx : RequestAudit) (s : Session)
      → IsFair deps proxy until meets
      → proxy.machine ≡ some mi
      → Run deps proxy until x (record x { dns = (check_machine deps mi meets x ctx s).0 })
  unfolding check_machine
  check_machine-Run meets mi x ctx s fair e = elim (Option-cases ctx.presented_machine_cert) [
    | inl absent ↦ rw (absent, check_machine) start
    | inr (cert, present) ↦ rw (present, check_machine) (verify-Run meets mi x cert _ fair e)
  ]

  -- A machine certificate that is there is checked, whatever comes of it.
  machine_step-left :
      (meets : Meets (Shared deps)) (mi : MachineIdentity trust) (x : Shared deps)
      (ctx : RequestAudit) (s : Session)
      → (left deps (machine_step deps (some mi) meets x ctx s) ≡ x)
        ⊎ (left deps (machine_step deps (some mi) meets x ctx s)
            ≡ record x { dns = (check_machine deps mi meets x ctx s).0 })
  unfolding machine_step machine_verdict refuse
  machine_step-left meets mi x ctx s =
      elim (Bool-cases (contains_key machine_cert_header s.req_header.headers)) [
        | inr absent ↦ inl (ground (arith, absent))
        | inl present ↦ inr (ground (arith, present))
      ]

  pub machine_step-Run :
      (meets : Meets (Shared deps)) (machine : Option (MachineIdentity trust)) (x : Shared deps)
      (ctx : RequestAudit) (s : Session)
      → IsFair deps proxy until meets
      → proxy.machine ≡ machine
      → Run deps proxy until x (left deps (machine_step deps machine meets x ctx s))
  unfolding machine_step
  machine_step-Run meets none x ctx s fair e = start
  machine_step-Run meets (some mi) x ctx s fair e = elim (machine_step-left meets mi x ctx s) [
    | inl same ↦ subst (Run deps proxy until x) (sym same) start
    | inr moved ↦
        subst (Run deps proxy until x) (sym moved) (check_machine-Run meets mi x ctx s fair e)
  ]

  commit_step-shared :
      (x : Shared deps) (ctx : RequestAudit) (r : NonceCache × Result (Unit {0}) AttestError)
      → (commit_step deps x ctx r).shared ≡ record x { nonces = r.0 }
  unfolding commit_step pass refuse_attest refuse
  commit_step-shared x ctx (nonces, ok u) = refl
  commit_step-shared x ctx (nonces, err e) = refl

  commit_step-Run :
      (meets : Meets (Shared deps)) (x : Shared deps) (ctx : RequestAudit) (p1 : PhaseOne)
      → IsFair deps proxy until meets
      → Run deps proxy until x
          (commit_step deps x ctx (commit_nonce x.nonces p1 meets.wall_commit meets.at)).shared
  commit_step-Run meets x ctx p1 fair =
      let outcome = commit_nonce x.nonces p1 meets.wall_commit meets.at in
      then x _ start
        (committed p1 meets.wall_commit meets.at fair.in_time (commit_step-shared x ctx outcome))

  bound_body-Run :
      (meets : Meets (Shared deps)) (x : Shared deps) (ctx : RequestAudit) (p1 : PhaseOne)
      (body : Result Bytes BodyFailure)
      → IsFair deps proxy until meets
      → Run deps proxy until x (bound_body deps meets x ctx p1 body).shared
  unfolding bound_body refuse_body refuse verify_body_and_commit
  bound_body-Run meets x ctx p1 (err BodyFailure.too_large) fair = start
  bound_body-Run meets x ctx p1 (err (BodyFailure.read_failed e)) fair = start
  bound_body-Run meets x ctx p1 (ok bytes) fair =
      elim (Bool-cases (body_matches p1.body_binding (deps.crates.sha256 bytes))) [
        | inr differs ↦
            let same = commit_step-shared x ctx (x.nonces, err AttestError.body_hash_mismatch) in
            rw (differs, verify_body_and_commit) (subst (Run deps proxy until x) (sym same) start)
        | inl matches ↦ rw (matches, verify_body_and_commit) (commit_step-Run meets x ctx p1 fair)
      ]

  pub body_step-Run :
      (meets : Meets (Shared deps)) (x : Shared deps) (ctx : RequestAudit) (p1 : PhaseOne)
      (binding : BodyBinding) (body : Body)
      → IsFair deps proxy until meets
      → Run deps proxy until x (body_step deps meets x ctx p1 binding body).shared
  unfolding body_step
  body_step-Run meets x ctx p1 BodyBinding.unbound body fair =
      let late = meets.before_commit x in
      Run-append deps proxy x late _ (fair.before_commit x) (commit_step-Run meets late ctx p1 fair)
  body_step-Run meets x ctx p1 (BodyBinding.hash expected) body fair =
      let late = meets.before_commit x in
      Run-append deps proxy x late _ (fair.before_commit x)
        (bound_body-Run meets late ctx p1 (read_body [] body) fair)
