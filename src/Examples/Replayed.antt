-- ===== src/Examples/Replayed.antt =====
-- The request of `Forwarding`, sent twice.
use den_browser.Prelude.{◌≡◌, ◌≢◌, refl, [], some, arith}
use den_browser.Audit.Record.{Action}
use den_browser.Attest.Window.{from_secs}
use den_browser.Attest.NonceCache.{default}
use den_browser.Attest.Replay.{run}
use den_browser.Proxy.State.{Meets, Shared}
use den_browser.Proxy.Filter.{request_filter}
use den_browser.Proxy.OneUse.{Clocks, forwarded_once}
use den_browser.Examples.Parameters.{deps}
use den_browser.Examples.Forwarding.{proxy, meets, shared, ctx, session, forwards}

-- Nine seconds later, nothing has been committed in between.
abbrev late : Meets (Shared deps)
late = record meets {
  before_commit = λ s. record s {
    nonces = run (request_filter deps proxy meets shared ctx session).shared.nonces [];
  };
  wall_commit = some (from_secs 1700000020);
  at = from_secs 61;
}

clocks : Clocks deps proxy meets late
clocks = record {
  first = from_secs 1700000011;
  second = from_secs 1700000020;
  first_wall = refl;
  second_wall = refl;
  first_date = omega arith;
  second_date = omega arith;
  step = omega arith;
}

run_none : (s : Shared deps) → default ≡ run default []
unfolding run
run_none s = refl

forwarded_once_example :
    (request_filter deps proxy late shared ctx session).ctx.action ≢ some Action.forward
forwarded_once_example =
    forwarded_once deps proxy meets late shared shared ctx ctx session session [] [] run_none
      (λ s. refl) tt clocks refl forwards
