-- ===== src/Proxy/Reached.antt =====
-- What the requests of proxy/src/main.rs do to the state that they share, as single steps: each is
-- one access under a lock, and the steps of several requests interleave in any order.
pub mod Access
pub mod Calls
pub mod Sound
pub mod Once
use den_browser.Prelude.{◌≡◌, ◌≤◌, refl, List, [], ◌∷◌, Option, none, some, Text}
use den_browser.Net.{IpAddr}
use den_browser.Attest.Window.{SystemTime, Instant}
use den_browser.Attest.Verifier.{PhaseOne, commit_nonce}
use den_browser.RateLimit.{RateLimiter, admit}
use den_browser.Machine.DnsCache.{Answer, settle}
use den_browser.Machine.{MachineIdentity}
use den_browser.Proxy.State.{Deps, Meets, DenBrowserProxy, Shared}

module _ (deps : Deps) (proxy : DenBrowserProxy deps) where
  open deps use {limits, trust}

  -- A step from `x` to `y`; a commit is not later than `until`.
  pub data Step (until : Instant) (x y : Shared deps) : Type 0 where
    charged :
        (limiter : RateLimiter limits) (ip : IpAddr) (target : Text)
        → x.rate_limiter ≡ some limiter
        → y ≡ record x { rate_limiter = some (admit limits limiter ip target).0 }
        → Step until x y
    resolved :
        (mi : MachineIdentity trust) (host : Text) (answer : Answer) (swept answered : Instant)
        → proxy.machine ≡ some mi
        → y ≡ record x { dns = (settle mi.ttls x.dns host answer swept answered).0 }
        → Step until x y
    committed :
        (p1 : PhaseOne) (wall : SystemTime) (at_ : Instant)
        → at_ ≤ until
        → y ≡ record x { nonces = (commit_nonce x.nonces p1 wall at_).0 }
        → Step until x y

  -- The states that steps lead to from `x`.
  pub data Run (until : Instant) (x : Shared deps) : Shared deps → Type 0 where
    start : Run until x x
    then : (y z : Shared deps) → Run until x y → Step until y z → Run until x z

  pub Run-append :
      {until : Instant} (x y z : Shared deps) → Run until x y → Run until y z → Run until x z
  Run-append x y _ before start = before
  Run-append x y _ before (then v w steps step) = then v w (Run-append x y v before steps) step

  -- What other requests do while a call waits is made of such steps.
  pub record IsFair (until : Instant) (meets : Meets (Shared deps)) : Type 0 where
    pub after_admit : (x : Shared deps) → Run until x (meets.after_admit x)
    pub after_headers : (x : Shared deps) → Run until x (meets.after_headers x)
    pub meanwhile :
        (x : Shared deps) → Run until x (record x { dns = meets.lookup.meanwhile x.dns })
    pub before_commit : (x : Shared deps) → Run until x (meets.before_commit x)
    pub in_time : meets.at ≤ until
