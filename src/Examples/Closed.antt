-- ===== src/Examples/Closed.antt =====
-- An exchange to its audit line (proxy/src/main.rs), with the request of `Forwarding`.
use den_browser.Prelude.{◌≡◌, refl, true, false, [], ◌∷◌, none, some, text}
use Prim.Native.Nat.{min}
use den_browser.Attest.Window.{from_secs}
use den_browser.Audit.Record.{AuditRecord}
use den_browser.Audit.Request.{u64_max}
use den_browser.Audit.Finish.{ErrorSource}
use den_browser.Proxy.Exchange.{Closing, exchange}
use den_browser.Proxy.Logged.{IsLogged, total, exchange-IsLogged}
use den_browser.Examples.Parameters.{deps}
use den_browser.Examples.Forwarding.{proxy, meets, shared, session}

abbrev closing : Closing
closing = record {
  server_addr = none;
  status = some 200;
  body_bytes_read = 0;
  error = some (record {
    esource = ErrorSource.upstream;
    is_invalid_header = false;
    etype = text "ConnectionClosed";
  });
  timestamp = text "2023-11-14T22:13:31.000Z";
  at = from_secs 53;
  enabled = λ l. true;
}

exchange-IsLogged_example :
    (l : AuditRecord) × ((exchange deps proxy meets shared session
        (from_secs 50)
        (some (text "ok") ∷ none ∷ [])
        closing).1
      ≡ some l)
    × IsLogged deps
        (exchange deps proxy meets shared session
          (from_secs 50)
          (some (text "ok") ∷ none ∷ [])
          closing).0
        closing.error
        l
    × (l.response_body_bytes ≡ min (total (some (text "ok") ∷ none ∷ [])) u64_max)
exchange-IsLogged_example =
    exchange-IsLogged deps proxy meets shared session (from_secs 50) (some (text "ok") ∷ none ∷ [])
      closing refl refl
