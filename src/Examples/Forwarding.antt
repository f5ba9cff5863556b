-- ===== src/Examples/Forwarding.antt =====
-- A request through `request_filter` of proxy/src/main.rs.
use den_browser.Prelude.{
  ℕ, ◌≡◌, refl, Bool, true, false, List, [], ◌∷◌, ◌++◌, Option, none, some, Text, Bytes, text,
  as_bytes, utf8, arith, list_beq, list_eq, nat_eq, contains as mem, all, any, find, if◌then◌else◌,
  trim, to_ascii_lowercase, before_first,
}
use den_browser.Prelude.Int.{pos, as_i64, saturating_sub, saturating_abs}
use den_browser.Prelude.Decimal.{parse_i64, read_digits}
use den_browser.Prelude.Result.{ok}
use den_browser.Net.{IpAddr, v4, ip_beq}
use den_browser.Audit.Record.{Action, Connection}
use den_browser.Audit.Request.{RequestAudit, new}
use den_browser.Attest.Window.{from_secs}
use den_browser.Attest.NonceCache.{default}
use den_browser.Machine.{MachineIdentity, Lookup, verify}
use den_browser.Machine.Verified.{IsTrusted, IsResolved, verify-IsResolved}
use den_browser.Machine.DnsCache.{Cache}
use den_browser.Proxy.Http.{
  HeaderMap, RequestHeader, Session, Body, chunk, done, broken, get, contains_key,
  upstream_request_filter,
}
use den_browser.Proxy.State.{Deps, Meets, DenBrowserProxy, Shared, Filtered}
use den_browser.Proxy.Filter.{request_filter}
use den_browser.Proxy.Refusals.{IsDecided, IsRefused, incomplete-IsRefused}
use den_browser.Proxy.Steps.{refuse_incomplete}
use den_browser.Proxy.Audited.{SaysRefused, record_of-IsRefused}
use den_browser.Audit.Finish.{record_of}
use den_browser.Audit.Reason.{downstream_error}
use den_browser.Proxy.Decision.{request_filter-IsDecided}
use den_browser.Proxy.Forwarded.{IsForwarded, request_filter-IsForwarded}
use den_browser.Proxy.Strip.{kept_back, upstream_request_filter_lem}
use den_browser.Examples.Toy.{zeros}
use den_browser.Examples.Parameters.{deps, workstation}

-- 77 bytes for the point and the nonce of AES-GCM, then the plaintext.
abbrev pub token : Text
token =
    text "aaaaaaaaaaaaaaaaaaaaaaaaaaaaaaaaaaaaaaaaaaaaaaaaaaaaaaaaaaaaaaaaaaaaaaaaaaaaa"
    ++ text "denbrowser-attest:v2|0123456789abcdef|1700000000|example.org|POST|/a|unbound"

abbrev pub headers : HeaderMap
headers =
    (text "host", text "example.org:443")
    ∷ (text "x-denbrowser-ts", text "1700000000")
    ∷ (text "x-denbrowser-nonce", text "0123456789abcdef")
    ∷ (text "x-denbrowser-token", token)
    ∷ (text "x-denbrowser-machine-cert", text "cert")
    ∷ (text "accept", text "*/*")
    ∷ []

abbrev pub post : RequestHeader
post = record {
  method = text "POST";
  headers = headers;
  authority = none;
  path_and_query = some (text "/a");
}

abbrev pub session : Session
session = record {
  client_addr = some (record { ip = v4 167772161; port = 50000 });
  req_header = post;
  client_cert = none;
  body = done;
}

abbrev pub machine : MachineIdentity deps.trust
machine = record {
  trusted = tt;
  allowed = text "ws1.corp" ∷ [];
  required = true;
  ca_certs = workstation ∷ [];
  ttls = record {
    dns_ttl = from_secs 14400;
    dns_negative_ttl = from_secs 30;
    dns_stale_grace = from_secs 3600;
  };
}

abbrev pub proxy : DenBrowserProxy deps
proxy = record {
  private_key = tt;
  upstream_host = text "backend";
  upstream_port = 443;
  bypass_policy = none;
  machine = some machine;
}

abbrev pub shared : Shared deps
shared = record { rate_limiter = none; nonces = default; dns = [] }

abbrev pub lookup : Lookup
lookup = record {
  asked = from_secs 50;
  meanwhile = λ cache. cache;
  answer = λ host. some (v4 167772161 ∷ []);
  swept = from_secs 51;
  answered = from_secs 51;
}

abbrev pub meets : Meets (Shared deps)
meets = record {
  after_admit = λ s. s;
  wall_headers = some (from_secs 1700000010);
  after_headers = λ s. s;
  lookup = lookup;
  before_commit = λ s. record s { nonces = default };
  wall_commit = some (from_secs 1700000011);
  at = from_secs 52;
}

abbrev pub ctx : RequestAudit
ctx = new true 0

pub forwards : (request_filter deps proxy meets shared ctx session).ctx.action ≡ some Action.forward
unfolding den_browser.Proxy.Filter.request_filter den_browser.Proxy.Filter.after_limit
    den_browser.Proxy.Filter.after_bypass den_browser.Proxy.Filter.attest
    den_browser.Proxy.Steps.record_request den_browser.Proxy.Steps.limit_step
    den_browser.Proxy.Steps.bypass_subject den_browser.Proxy.Steps.header_step
    den_browser.Proxy.Steps.preflight_step den_browser.Proxy.Steps.token_step
    den_browser.Proxy.Steps.machine_step den_browser.Proxy.Steps.machine_verdict
    den_browser.Proxy.Steps.check_machine den_browser.Proxy.Steps.body_step
    den_browser.Proxy.Steps.commit_step den_browser.Proxy.State.pass den_browser.Proxy.State.refuse
    den_browser.Audit.Request.token_verified den_browser.Audit.Request.forward
    den_browser.Audit.Request.request den_browser.Audit.Request.attestation_headers
    den_browser.Audit.Request.machine_cert_presented den_browser.Audit.Request.machine_verified
    den_browser.Audit.Request.bounded den_browser.Audit.Request.unix_timestamp
    den_browser.Audit.Record.binding_of den_browser.Proxy.Http.header_str den_browser.Proxy.Http.get
    den_browser.Proxy.Http.contains_key den_browser.Proxy.Http.to_str
    den_browser.Proxy.Http.request_host den_browser.Proxy.Http.path_of
    den_browser.Proxy.Http.ts_header den_browser.Proxy.Http.nonce_header
    den_browser.Proxy.Http.token_header den_browser.Proxy.Http.machine_cert_header
    den_browser.Attest.Verifier.verify_headers den_browser.Attest.Verifier.read_nonce
    den_browser.Attest.Verifier.derive_key den_browser.Attest.Verifier.decrypt_token
    den_browser.Attest.Token.read_plaintext den_browser.Attest.Token.check_parts
    den_browser.Attest.Token.split den_browser.Attest.Token.body_binding
    den_browser.Attest.Token.unbound_sentinel den_browser.Attest.Token.plaintext_prefix
    den_browser.Attest.Window.unix_now den_browser.Attest.Window.check_drift
    den_browser.Attest.Window.check_commit_window den_browser.Prelude.Int.as_i64
    den_browser.Prelude.Int.saturating_sub den_browser.Prelude.Int.saturating_abs
    den_browser.Attest.Verifier.commit_nonce den_browser.Attest.NonceCache.contains
    den_browser.Attest.NonceCache.commit den_browser.Attest.NonceCache.evict_expired
    den_browser.Attest.NonceCache.evict_loop den_browser.Machine.verify
    den_browser.Machine.verify_cert den_browser.Machine.read_cert den_browser.Machine.check_cert
    den_browser.Machine.check_address den_browser.Machine.resolve_cached
    den_browser.Machine.DnsCache.fresh den_browser.Machine.DnsCache.settle
    den_browser.Machine.DnsCache.store den_browser.Machine.DnsCache.retain
    den_browser.Machine.DnsCache.insert den_browser.Machine.is_unsafe den_browser.Mtls.from_cert
    den_browser.Mtls.distinguished_name den_browser.Mtls.entry_text den_browser.Mtls.escape_dn_value
    den_browser.Mtls.escape_from den_browser.Mtls.escape_char den_browser.Mtls.is_special
    den_browser.Mtls.is_control den_browser.Mtls.hex_escape den_browser.Examples.Parameters.unwrap
    den_browser.Examples.Toy.sha256 den_browser.Prelude.Decimal.parse_i64
    den_browser.Prelude.Decimal.read_digits den_browser.Prelude.text den_browser.Prelude.utf8
    den_browser.Prelude.as_bytes den_browser.Prelude.list_beq mem den_browser.Prelude.all
    den_browser.Prelude.any den_browser.Prelude.find den_browser.Prelude.trim
    den_browser.Prelude.to_ascii_lowercase den_browser.Prelude.before_first den_browser.Net.ip_beq
    den_browser.Prelude.is_whitespace den_browser.Machine.DnsCache.get
forwards = refl

request_filter-IsForwarded_example :
    IsForwarded deps proxy meets shared ctx session
      (request_filter deps proxy meets shared ctx session)
request_filter-IsForwarded_example =
    request_filter-IsForwarded deps proxy meets shared ctx session forwards

request_filter-IsDecided_example :
    IsDecided deps (request_filter deps proxy meets shared ctx session)
request_filter-IsDecided_example = request_filter-IsDecided deps proxy meets shared ctx session

upstream_request_filter_lem_example :
    (get (text "accept") (upstream_request_filter post).headers
      ≡ (if mem (text "accept") kept_back then none else get (text "accept") headers))
    × (contains_key (text "accept") (upstream_request_filter post).headers
        ≡ (if mem (text "accept") kept_back then false else contains_key (text "accept") headers))
    × ((upstream_request_filter post).method ≡ text "POST")
    × ((upstream_request_filter post).path_and_query ≡ some (text "/a"))
upstream_request_filter_lem_example = upstream_request_filter_lem post (text "accept")

abbrev bad_post : RequestHeader
bad_post = record post { headers = (text "host", text "example.org") ∷ [] }

abbrev refusal : Filtered deps
refusal = refuse_incomplete deps shared ctx bad_post

refusal-IsRefused : IsRefused deps refusal
refusal-IsRefused = incomplete-IsRefused deps shared ctx bad_post

abbrev conn : Connection
conn = record {
  proxy = none;
  client = some (record { ip = v4 167772161; port = 50000 });
  tls_client_subject = none;
  status_code = some 403;
  request_body_bytes = 0;
  response_body_bytes = 0;
}

record_of-IsRefused_example :
    SaysRefused refusal-IsRefused.reason
      (record_of deps.trust refusal.ctx conn (some (downstream_error, text "reset")) [] 3).1
record_of-IsRefused_example =
    record_of-IsRefused deps refusal refusal-IsRefused conn (some (downstream_error, text "reset"))
      [] 3

verified_machine :
    (verify deps.trust machine [] (text "cert") (some (v4 167772161)) lookup).1
    ≡ ok (record { hostname = text "ws1.corp"; subject_dn = text "CN=WS1.corp" })
unfolding den_browser.Prelude.Int.as_i64 den_browser.Prelude.Int.saturating_sub
    den_browser.Prelude.Int.saturating_abs den_browser.Machine.verify
    den_browser.Machine.verify_cert den_browser.Machine.read_cert den_browser.Machine.check_cert
    den_browser.Machine.check_address den_browser.Machine.resolve_cached
    den_browser.Machine.DnsCache.fresh den_browser.Machine.DnsCache.settle
    den_browser.Machine.DnsCache.store den_browser.Machine.DnsCache.retain
    den_browser.Machine.DnsCache.insert den_browser.Machine.is_unsafe den_browser.Mtls.from_cert
    den_browser.Mtls.distinguished_name den_browser.Mtls.entry_text den_browser.Mtls.escape_dn_value
    den_browser.Mtls.escape_from den_browser.Mtls.escape_char den_browser.Mtls.is_special
    den_browser.Mtls.is_control den_browser.Mtls.hex_escape den_browser.Prelude.Decimal.parse_i64
    den_browser.Prelude.Decimal.read_digits den_browser.Prelude.text den_browser.Prelude.utf8
    den_browser.Prelude.as_bytes den_browser.Prelude.list_beq den_browser.Prelude.all
    den_browser.Prelude.any den_browser.Prelude.find den_browser.Prelude.trim
    den_browser.Prelude.to_ascii_lowercase den_browser.Prelude.before_first den_browser.Net.ip_beq
    den_browser.Prelude.is_whitespace den_browser.Machine.DnsCache.get mem
verified_machine = refl

verify-IsResolved_example :
    (ip : IpAddr) × (some (v4 167772161) ≡ some ip)
    × IsTrusted deps.trust machine
        (text "cert")
        (record { hostname = text "ws1.corp"; subject_dn = text "CN=WS1.corp" })
    × IsResolved deps.trust machine.ttls [] (text "ws1.corp") ip lookup
verify-IsResolved_example =
    verify-IsResolved deps.trust machine [] (text "cert") (some (v4 167772161)) lookup
      (record { hostname = text "ws1.corp"; subject_dn = text "CN=WS1.corp" }) verified_machine
