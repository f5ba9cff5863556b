-- ===== src/Examples/Served.antt =====
-- Requests before the proxy that `Started` starts, and before that of `Forwarding`.
use den_browser.Prelude.{
  ℕ, ◌≡◌, ◌≢◌, refl, Bool, true, false, List, [], ◌∷◌, Option, none, some, Text, text, arith,
  list_beq, contains as mem, all, any, find, trim, to_ascii_lowercase, before_first,
}
use den_browser.Audit.Record.{Action}
use den_browser.Audit.Request.{RequestAudit, new}
use den_browser.Attest.Window.{from_secs}
use den_browser.Proxy.State.{Meets, Shared}
use den_browser.Proxy.Filter.{request_filter}
use den_browser.Proxy.OneUse.{Clocks}
use den_browser.Proxy.Reached.{Run, start}
use den_browser.Proxy.Reached.Calls.{request_filter-Run}
use den_browser.Proxy.Reached.Sound.{IsSound}
use den_browser.Startup.{initial}
use den_browser.Startup.Served.{served-IsSound, served_once}
use den_browser.Examples.Parameters.{deps}
use den_browser.Examples.Forwarding.{proxy, lookup, shared, ctx, session}
use den_browser.Examples.Started.{world, args, made, opened, started}

-- Nothing happens while the call waits.
abbrev alone : Meets (Shared deps)
alone = record {
  after_admit = λ s. s;
  wall_headers = some (from_secs 1700000010);
  after_headers = λ s. s;
  lookup = lookup;
  before_commit = λ s. s;
  wall_commit = some (from_secs 1700000011);
  at = from_secs 52;
}

request_filter-Run_example :
    Run deps proxy (from_secs 52) shared (request_filter deps proxy alone shared ctx session).shared
request_filter-Run_example =
    request_filter-Run deps proxy (from_secs 52) alone shared ctx session (record {
      after_admit = λ x. start;
      after_headers = λ x. start;
      meanwhile = λ x. start;
      before_commit = λ x. start;
      in_time = omega arith;
    })

abbrev plain_ctx : RequestAudit
plain_ctx = new false 0

served-IsSound_example :
    IsSound deps (initial world made) (initial world made)
    × IsSound deps
        (initial world made)
        (request_filter deps made.proxy alone (initial world made) plain_ctx session).shared
served-IsSound_example =
    served-IsSound world args made opened (from_secs 52) (initial world made) alone plain_ctx
      session started start
      (record {
        after_admit = λ x. start;
        after_headers = λ x. start;
        meanwhile = λ x. start;
        before_commit = λ x. start;
        in_time = omega arith;
      })

-- The first request, and the same nine seconds later.
abbrev first : Meets (Shared deps)
first = record alone { before_commit = λ s. initial world made }

abbrev second : Meets (Shared deps)
second = record alone {
  before_commit =
      λ s. (request_filter deps made.proxy first (initial world made) plain_ctx session).shared;
  wall_commit = some (from_secs 1700000020);
  at = from_secs 61;
}

clocks : Clocks deps made.proxy first second
clocks = record {
  first = from_secs 1700000011;
  second = from_secs 1700000020;
  first_wall = refl;
  second_wall = refl;
  first_date = omega arith;
  second_date = omega arith;
  step = omega arith;
}

served_first :
    (request_filter deps made.proxy first (initial world made) plain_ctx session).ctx.action
    ≡ some Action.forward
unfolding den_browser.Startup.initial den_browser.Proxy.Filter.request_filter
    den_browser.Proxy.Filter.after_limit den_browser.Proxy.Filter.after_bypass
    den_browser.Proxy.Filter.attest den_browser.Proxy.Steps.record_request
    den_browser.Proxy.Steps.limit_step den_browser.Proxy.Steps.bypass_subject
    den_browser.Proxy.Steps.header_step den_browser.Proxy.Steps.preflight_step
    den_browser.Proxy.Steps.token_step den_browser.Proxy.Steps.machine_step
    den_browser.Proxy.Steps.machine_verdict den_browser.Proxy.Steps.check_machine
    den_browser.Proxy.Steps.body_step den_browser.Proxy.Steps.commit_step
    den_browser.Proxy.State.pass den_browser.Proxy.State.refuse
    den_browser.Audit.Request.token_verified den_browser.Audit.Request.forward
    den_browser.Audit.Request.request den_browser.Audit.Request.attestation_headers
    den_browser.Audit.Request.machine_cert_presented den_browser.Audit.Request.machine_verified
    den_browser.Audit.Request.bounded den_browser.Audit.Request.unix_timestamp
    den_browser.Audit.Record.binding_of den_browser.Proxy.Http.header_str den_browser.Proxy.Http.get
    den_browser.Proxy.Http.contains_key den_browser.Proxy.Http.to_str
    den_browser.Proxy.Http.request_host den_browser.Proxy.Http.path_of
    den_browser.Proxy.Http.ts_header den_browser.Proxy.Http.nonce_header
    den_browser.Proxy.Http.token_header den_browser.Proxy.Http.machine_cert_header
    den_browser.Attest.Verifier.verify_headers den_browser.Attest.Verifier.read_nonce
    den_browser.Attest.Verifier.derive_key den_browser.Attest.Verifier.decrypt_token
    den_browser.Attest.Token.read_plaintext den_browser.Attest.Token.check_parts
    den_browser.Attest.Token.split den_browser.Attest.Token.body_binding
    den_browser.Attest.Token.unbound_sentinel den_browser.Attest.Token.plaintext_prefix
    den_browser.Attest.Window.unix_now den_browser.Attest.Window.check_drift
    den_browser.Attest.Window.check_commit_window den_browser.Prelude.Int.as_i64
    den_browser.Prelude.Int.saturating_sub den_browser.Prelude.Int.saturating_abs
    den_browser.Attest.Verifier.commit_nonce den_browser.Attest.NonceCache.contains
    den_browser.Attest.NonceCache.commit den_browser.Attest.NonceCache.evict_expired
    den_browser.Attest.NonceCache.evict_loop den_browser.Machine.verify
    den_browser.Machine.verify_cert den_browser.Machine.read_cert den_browser.Machine.check_cert
    den_browser.Machine.check_address den_browser.Machine.resolve_cached
    den_browser.Machine.DnsCache.fresh den_browser.Machine.DnsCache.settle
    den_browser.Machine.DnsCache.store den_browser.Machine.DnsCache.retain
    den_browser.Machine.DnsCache.insert den_browser.Machine.is_unsafe den_browser.Mtls.from_cert
    den_browser.Mtls.distinguished_name den_browser.Mtls.entry_text den_browser.Mtls.escape_dn_value
    den_browser.Mtls.escape_from den_browser.Mtls.escape_char den_browser.Mtls.is_special
    den_browser.Mtls.is_control den_browser.Mtls.hex_escape den_browser.Examples.Parameters.unwrap
    den_browser.Examples.Toy.sha256 den_browser.Prelude.Decimal.parse_i64
    den_browser.Prelude.Decimal.read_digits den_browser.Prelude.text den_browser.Prelude.utf8
    den_browser.Prelude.as_bytes den_browser.Prelude.list_beq mem den_browser.Prelude.all
    den_browser.Prelude.any den_browser.Prelude.find den_browser.Prelude.trim
    den_browser.Prelude.to_ascii_lowercase den_browser.Prelude.before_first den_browser.Net.ip_beq
    den_browser.Prelude.is_whitespace den_browser.Machine.DnsCache.get
served_first = refl

served_once_example :
    (request_filter deps made.proxy second (initial world made) plain_ctx session).ctx.action
    ≢ some Action.forward
served_once_example =
    served_once world args made opened (from_secs 52) first second (initial world made)
      (initial world made) plain_ctx plain_ctx session session started (λ x. start) (λ x. start)
      clocks refl served_first
