-- ===== src/Proxy/OneUse.antt =====
-- Two requests with one token before `request_filter` of proxy/src/main.rs.
use den_browser.Prelude.{ℕ, ◌+◌, ◌^◌, ◌≤◌, ◌<◌, ◌≡◌, ◌≢◌, sym, ap, ◌∙◌, some, List, All}
use den_browser.Prelude.Result.{ok}
use den_browser.Audit.Record.{Action}
use den_browser.Audit.Request.{RequestAudit}
use den_browser.Attest.Window.{from_secs}
use den_browser.Attest.NonceCache.{default}
use den_browser.Attest.Verifier.{commit_nonce}
use den_browser.Attest.Binding.{token_fixes_request}
use den_browser.Attest.Replay.{Attempt, attempt, run, accepted_once}
use den_browser.Proxy.Http.{Session, header_str, token_header}
use den_browser.Proxy.State.{Deps, Meets, DenBrowserProxy, Shared}
use den_browser.Proxy.Filter.{request_filter}
use den_browser.Proxy.Steps.{inputs}
use den_browser.Proxy.Forwarded.{request_filter-IsForwarded}

module _ (deps : Deps) (proxy : DenBrowserProxy deps) where
  -- The clocks of two commits: dates that fit `i64` seconds, and a wall clock that fell back by
  -- 59 s at most against the monotonic one.
  pub record Clocks (a b : Meets (Shared deps)) : Type 0 where
    pub first : ℕ
    pub second : ℕ
    pub first_wall : a.wall_commit ≡ some first
    pub second_wall : b.wall_commit ≡ some second
    pub first_date : first < from_secs (2 ^ 63)
    pub second_date : second < from_secs (2 ^ 63)
    pub step : b.at + first ≤ a.at + second + from_secs 59

  -- One token is not forwarded twice, where what is committed before each commit may depend on the
  -- state that its call has last seen.
  pub forwarded_once_any :
      (m n : Meets (Shared deps)) (a b : Shared deps) (c d : RequestAudit) (s t : Session)
      (before between : Shared deps → List Attempt)
      → ((x : Shared deps) → (m.before_commit x).nonces ≡ run default (before x))
      → ((x : Shared deps)
          → (n.before_commit x).nonces
            ≡ run (request_filter deps proxy m a c s).shared.nonces (between x))
      → ((x : Shared deps) → All (λ y. y.at ≤ n.at) (between x))
      → Clocks m n
      → header_str s.req_header.headers token_header ≡ header_str t.req_header.headers token_header
      → (request_filter deps proxy m a c s).ctx.action ≡ some Action.forward
      → (request_filter deps proxy n b d t).ctx.action ≢ some Action.forward
  forwarded_once_any m n a b c d s t before between found left earlier clocks same first second =
      let f = request_filter-IsForwarded deps proxy m a c s first in
      let g = request_filter-IsForwarded deps proxy n b d t second in
      let x : Attempt = record { p1 = f.p1; since_epoch = clocks.first; at = m.at } in
      let y : Attempt = record { p1 = g.p1; since_epoch = clocks.second; at = n.at } in
      let token : f.headers.token ≡ g.headers.token = cc (f.complete.2, g.complete.2, same) in
      let one =
        token_fixes_request deps.crates proxy.private_key (m.after_admit f.charged).nonces
          (n.after_admit g.charged).nonces m.wall_headers n.wall_headers
          (inputs deps f.headers s.req_header) (inputs deps g.headers t.req_header) f.p1 g.p1 token
          f.attested g.attested in
      let taken : attempt (run default (before f.late)) x
          ≡ ((request_filter deps proxy m a c s).shared.nonces, ok tt) =
        ap (λ w. commit_nonce (run default (before f.late)) f.p1 w m.at) (sym clocks.first_wall)
        ∙ ap (λ k. commit_nonce k f.p1 m.wall_commit m.at) (sym (found f.late))
        ∙ f.committed in
      let again : attempt (run (attempt (run default (before f.late)) x).0 (between g.late)) y
          ≡ ((request_filter deps proxy n b d t).shared.nonces, ok tt) =
        ap
          (λ w.
            commit_nonce (run (attempt (run default (before f.late)) x).0 (between g.late)) g.p1 w
              n.at)
          (sym clocks.second_wall)
        ∙ ap (λ k. commit_nonce (run k.0 (between g.late)) g.p1 n.wall_commit n.at) taken
        ∙ ap (λ k. commit_nonce k g.p1 n.wall_commit n.at) (sym (left g.late))
        ∙ g.committed in
      accepted_once (before f.late) x (between g.late) y (earlier g.late)
        (record { date_a = clocks.first_date; date_b = clocks.second_date; step = clocks.step })
        one.0 one.1 (ap (λ r. r.1) taken) (ap (λ r. r.1) again)

  -- A token is good for one forwarded request: once a request is forwarded, whose commit found the
  -- cache of any history of commits, no later request with the same token header is forwarded,
  -- whatever commits came between the two, as long as none of those is later than its own, and the
  -- wall clock reads dates that fit `i64` seconds and fell back by 59 s at most.
  pub forwarded_once :
      (m n : Meets (Shared deps)) (a b : Shared deps) (c d : RequestAudit) (s t : Session)
      (before between : List Attempt)
      → ((x : Shared deps) → (m.before_commit x).nonces ≡ run default before)
      → ((x : Shared deps)
          → (n.before_commit x).nonces
            ≡ run (request_filter deps proxy m a c s).shared.nonces between)
      → All (λ x. x.at ≤ n.at) between
      → Clocks m n
      → header_str s.req_header.headers token_header ≡ header_str t.req_header.headers token_header
      → (request_filter deps proxy m a c s).ctx.action ≡ some Action.forward
      → (request_filter deps proxy n b d t).ctx.action ≢ some Action.forward
  forwarded_once m n a b c d s t before between found left earlier clocks same first =
      forwarded_once_any m n a b c d s t (λ x. before) (λ x. between) found left (λ x. earlier)
        clocks same first
