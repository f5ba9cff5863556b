-- ===== src/Startup/Served.antt =====
-- Requests before a proxy that `main` of proxy/src/main.rs has started.
use den_browser.Prelude.{◌≡◌, ◌≢◌, refl, sym, subst, some}
use den_browser.Prelude.Result.{ok}
use den_browser.Audit.Record.{Action}
use den_browser.Audit.Request.{RequestAudit}
use den_browser.Attest.Window.{Instant}
use den_browser.Attest.NonceCache.{default}
use den_browser.Attest.NonceCache.Invariant.{Inv, default-Inv}
use den_browser.Proxy.Http.{Session, header_str, token_header}
use den_browser.Proxy.State.{Meets, Shared}
use den_browser.Proxy.Filter.{request_filter}
use den_browser.Proxy.OneUse.{Clocks}
use den_browser.Proxy.Reached.{Run, IsFair}
use den_browser.Proxy.Reached.Calls.{request_filter-Run}
use den_browser.Proxy.Reached.Sound.{IsSound, Run-IsSound}
use den_browser.Proxy.Reached.Once.{reached_once}
use den_browser.Startup.{Args, World, Components, initial}
use den_browser.Startup.Listening.{Listener, start}
use den_browser.Startup.Started.{start-IsStarted}

module _ (w : World) (args : Args) (c : Components w) (l : Listener w) where
  open w use {deps}
  open c use {proxy}

  initial-empty : start w args ≡ ok (c, l) → (initial w c).nonces ≡ default
  unfolding initial
  initial-empty h = (start-IsStarted w args c l h).0.settings.empty_cache

  initial-IsSound : start w args ≡ ok (c, l) → IsSound deps (initial w c) (initial w c)
  unfolding initial
  initial-IsSound h = record {
    nonces = subst Inv (sym (initial-empty h)) default-Inv;
    dns = tt;
    allowed = refl;
  }

  -- In a proxy that has started, after any steps of any requests in any order, and again after one
  -- more call of `request_filter`: the set and the queue of the nonce cache agree, no host has two
  -- entries in the DNS cache, and the rate limiter allows what it did at the start; if what others
  -- do while the call waits is made of such steps.
  pub served-IsSound :
      (until : Instant) (x : Shared deps) (meets : Meets (Shared deps)) (ctx : RequestAudit)
      (s : Session)
      → start w args ≡ ok (c, l)
      → Run deps proxy until (initial w c) x
      → IsFair deps proxy until meets
      → IsSound deps (initial w c) x
        × IsSound deps (initial w c) (request_filter deps proxy meets x ctx s).shared
  served-IsSound until x meets ctx s h before fair =
      let sound = Run-IsSound deps proxy (initial w c) (initial w c) x (initial-IsSound h) before in
      (
        sound,
        Run-IsSound deps proxy (initial w c) x _ sound
            (request_filter-Run deps proxy until meets x ctx s fair),
      )

  -- A proxy that has started forwards no token twice: once a request is forwarded, no request whose
  -- commit comes after it, with the same token header, is forwarded, whatever steps other requests
  -- do before, between and meanwhile, as long as none of the commits between is later than its own,
  -- and the wall clock reads dates that fit `i64` seconds and fell back by 59 s at most between the
  -- two.
  pub served_once :
      (until : Instant) (m n : Meets (Shared deps)) (a b : Shared deps) (d e : RequestAudit)
      (s t : Session)
      → start w args ≡ ok (c, l)
      → ((x : Shared deps) → Run deps proxy until (initial w c) (m.before_commit x))
      → ((x : Shared deps)
          → Run deps proxy n.at (request_filter deps proxy m a d s).shared (n.before_commit x))
      → Clocks deps proxy m n
      → header_str s.req_header.headers token_header ≡ header_str t.req_header.headers token_header
      → (request_filter deps proxy m a d s).ctx.action ≡ some Action.forward
      → (request_filter deps proxy n b e t).ctx.action ≢ some Action.forward
  served_once until m n a b d e s t h found left clocks same first =
      reached_once deps proxy (initial w c) m n a b d e s t (initial-empty h) found left clocks same
        first
