-- ===== src/Proxy/Reached/Sound.antt =====
-- What holds of the state that the requests of proxy/src/main.rs share, after any steps of any
-- requests in any order.
use den_browser.Prelude.{
  ◌+◌, ◌≡◌, refl, ap, ◌∙◌, sym, List, [], ◌∷◌, Option, none, some, Text, arith, inl, inr,
  Bool-cases,
}
use den_browser.Prelude.Int.{ℤ}
use den_browser.Net.{IpAddr}
use den_browser.Attest.Window.{Instant}
use den_browser.Attest.NonceCache.Invariant.{Inv}
use den_browser.Attest.Replay.{commit_nonce-Inv}
use den_browser.RateLimit.{
  Limits, Limit, Rule, RateLimiter, admit, admit_rules, admit_universal, admit_limit,
}
use den_browser.Machine.DnsCache.{Cache, Ttls, Answer, settle, store}
use den_browser.Machine.DnsCache.Sweep.{IsMap, retain-IsMap, insert-IsMap}
use den_browser.Proxy.State.{Deps, DenBrowserProxy, Shared}
use den_browser.Proxy.Reached.{Step, charged, resolved, committed, Run, start, then}

-- What a limiter allows, without what it has counted.
module _ (lib : Limits) where
  open lib use {GlobMatcher, is_match}

  abbrev rule_caps : List (Rule lib) → List (GlobMatcher × ℤ)
  rule_caps [] = []
  rule_caps (r ∷ rs) = (r.matcher, r.limit.max) ∷ rule_caps rs

  abbrev universal_cap : Option (Limit lib) → Option ℤ
  universal_cap none = none
  universal_cap (some u) = some u.max

  abbrev pub caps : Option (RateLimiter lib) → Option (Option ℤ × List (GlobMatcher × ℤ))
  caps none = none
  caps (some l) = some (universal_cap l.universal, rule_caps l.rules)

  admit_rules-caps :
      (rules : List (Rule lib)) (ip : IpAddr) (target : Text)
      → rule_caps (admit_rules lib rules ip target).0 ≡ rule_caps rules
  unfolding admit_rules admit_limit
  admit_rules-caps [] ip target = refl
  admit_rules-caps (r ∷ rs) ip target = ground (arith, admit_rules-caps rs ip target)

  admit_universal-cap :
      (universal : Option (Limit lib)) (ip : IpAddr)
      → universal_cap (admit_universal lib universal ip).0 ≡ universal_cap universal
  unfolding admit_universal admit_limit
  admit_universal-cap none ip = refl
  admit_universal-cap (some u) ip = refl

  admit-caps :
      (l : RateLimiter lib) (ip : IpAddr) (target : Text)
      → caps (some (admit lib l ip target).0) ≡ caps (some l)
  unfolding admit
  admit-caps l ip target =
      let capped = admit_universal-cap l.universal ip in
      let ruled = admit_rules-caps l.rules ip target in
      elim (Bool-cases (admit_universal lib l.universal ip).1) [
        | inl on ↦ rw (on, admit) (cc (capped, ruled))
        | inr off ↦ rw (off, admit) (cc capped)
      ]

settle-IsMap :
    (ttls : Ttls) (cache : Cache) (host : Text) (answer : Answer) (swept answered : Instant)
    → IsMap cache
    → IsMap (settle ttls cache host answer swept answered).0
unfolding settle store
settle-IsMap ttls cache host none swept answered m = m
settle-IsMap ttls cache host (some addrs) swept answered m =
    let keep = ttls.dns_ttl + ttls.dns_stale_grace in
    insert-IsMap host _ _ (retain-IsMap keep swept cache m)

module _ (deps : Deps) where
  open deps use {limits}

  -- The set and the queue of nonces agree, no host has two answers, and the limiter allows what
  -- `first` allows.
  pub record IsSound (first x : Shared deps) : Type 0 where
    pub nonces : Inv x.nonces
    pub dns : IsMap x.dns
    pub allowed : caps limits x.rate_limiter ≡ caps limits first.rate_limiter

  module _ (proxy : DenBrowserProxy deps) {until : Instant} (first : Shared deps) where
    Step-IsSound :
        (x y : Shared deps) → IsSound first x → Step deps proxy until x y → IsSound first y
    Step-IsSound x y v (charged limiter ip target on moved) = rw moved (record {
      nonces = v.nonces;
      dns = v.dns;
      allowed = admit-caps limits limiter ip target ∙ ap (caps limits) (sym on) ∙ v.allowed;
    })
    Step-IsSound x y v (resolved mi host answer swept answered on moved) = rw moved (record {
      nonces = v.nonces;
      dns = settle-IsMap mi.ttls x.dns host answer swept answered v.dns;
      allowed = v.allowed;
    })
    Step-IsSound x y v (committed p1 wall at_ order moved) = rw moved (record {
      nonces = commit_nonce-Inv x.nonces p1 wall at_ v.nonces;
      dns = v.dns;
      allowed = v.allowed;
    })

    pub Run-IsSound :
        (x y : Shared deps) → IsSound first x → Run deps proxy until x y → IsSound first y
    Run-IsSound x _ v start = v
    Run-IsSound x _ v (then y z steps step) = Step-IsSound y z (Run-IsSound x y v steps) step
