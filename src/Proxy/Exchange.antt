-- ===== src/Proxy/Exchange.antt =====
-- The other hooks of `DenBrowserProxy` in proxy/src/main.rs, and one exchange from its start to its
-- audit line. What pingora reports of the exchange is an argument.
use den_browser.Prelude.{
  ℕ, Bool, true, false, List, [], ◌∷◌, ◌++◌, Option, none, some, Text, Bytes, text, length,
}
use den_browser.Prelude.Result.{Result}
use den_browser.Net.{SocketAddr}
use den_browser.Attest.Window.{Instant}
use den_browser.Audit.Record.{Level, Connection, AuditRecord}
use den_browser.Audit.Request.{RequestAudit, new, option_map, response_body}
use den_browser.Audit.Finish.{PingoraError, classify_proxy_error, finish}
use den_browser.Mtls.{ClientCert}
use den_browser.UpstreamTls.{UpstreamTls, PeerOptions, apply}
use den_browser.Proxy.Http.{RequestHeader, Session, request_host}
use den_browser.Proxy.State.{Deps, Meets, DenBrowserProxy, Shared, Filtered}
use den_browser.Proxy.Filter.{request_filter}

-- What pingora knows when the exchange is over, with the clocks and the answer of the log filter.
pub record Closing : Type 0 where
  pub server_addr : Option SocketAddr
  pub status : Option ℕ
  pub body_bytes_read : ℕ
  pub error : Option PingoraError
  pub timestamp : Text
  pub at : Instant
  pub enabled : Level → Bool

unfoldable pub response_body_filter : RequestAudit → Option Bytes → RequestAudit
response_body_filter ctx none = ctx
response_body_filter ctx (some chunk) = response_body ctx (length chunk)

-- The calls of `response_body_filter` in one exchange.
unfoldable pub response_bodies : RequestAudit → List (Option Bytes) → RequestAudit
response_bodies ctx [] = ctx
response_bodies ctx (body ∷ bodies) = response_bodies (response_body_filter ctx body) bodies

unfoldable pub request_summary : RequestHeader → Text
request_summary req =
    req.method ++ (text " " ++ elim (request_host req) [ none ↦ text "-" | some h ↦ h ])

unfoldable pub connection : Session → Closing → RequestAudit → Connection
connection s closing ctx = record {
  proxy = closing.server_addr;
  client = s.client_addr;
  tls_client_subject = option_map (λ (c : ClientCert). c.subject_dn) s.client_cert;
  status_code = closing.status;
  request_body_bytes = closing.body_bytes_read;
  response_body_bytes = ctx.response_body_bytes;
}

-- `HttpPeer`, as far as it is set: the address, whether TLS is used, the name for SNI, the versions of
-- HTTP, the trust settings.
pub record HttpPeer (O : Type 0) : Type 0 where
  pub host : Text
  pub port : ℕ
  pub tls : Bool
  pub sni : Text
  pub max_http_version : ℕ
  pub min_http_version : ℕ
  pub options : O

module _ (deps : Deps) where
  open deps use {trust}

  unfoldable pub new_ctx : DenBrowserProxy deps → Instant → RequestAudit
  new_ctx proxy now = new (elim proxy.machine [ none ↦ false | some mi ↦ true ]) now

  unfoldable pub logging : Session → Closing → RequestAudit → RequestAudit × Option AuditRecord
  unfolding connection finish
  logging s closing ctx =
      finish trust closing.enabled ctx (connection s closing ctx)
        (option_map classify_proxy_error closing.error) closing.timestamp closing.at

  -- The decision, and the line.
  unfoldable pub exchange :
      DenBrowserProxy deps
      → Meets (Shared deps)
      → Shared deps
      → Session
      → Instant
      → List (Option Bytes)
      → Closing
      → Filtered deps × Option AuditRecord
  unfolding logging response_bodies
  exchange proxy meets shared s started bodies closing =
      let f = request_filter deps proxy meets shared (new_ctx proxy started) s in
      (f, (logging s closing (response_bodies f.ctx bodies)).1)

  -- `upstream_peer`, with the defaults of the peer's options.
  module _ (read : Text → Result Bytes Text) where
    open trust use {stack_from_pem}

    unfoldable pub upstream_peer :
        DenBrowserProxy deps
        → UpstreamTls read stack_from_pem
        → PeerOptions read stack_from_pem
        → HttpPeer (PeerOptions read stack_from_pem)
    unfolding apply
    upstream_peer proxy upstream_tls defaults = record {
      host = proxy.upstream_host;
      port = proxy.upstream_port;
      tls = true;
      sni = proxy.upstream_host;
      max_http_version = 2;
      min_http_version = 1;
      options = apply read stack_from_pem upstream_tls defaults;
    }
