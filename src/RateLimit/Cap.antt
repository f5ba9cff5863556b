-- ===== src/RateLimit/Cap.antt =====
-- How many requests of one address proxy/src/ratelimit.rs lets through within a window, when the
-- estimator never counts too few.
use den_browser.Prelude.{
  ℕ, ◌+◌, ◌-◌, ◌≤◌, ◌<◌, ◌≡◌, ◌≢◌, refl, ◌∙◌, true, false, List, [], ◌∷◌, some, ◌==◌, eq_iff, arith,
  Bool-cases, inl, inr, nat_eq,
}
use den_browser.Prelude.Int.{pos}
use den_browser.Prelude.Result.{ok}
use den_browser.Net.{IpAddr, ip_eq}
use den_browser.Config.{RateLimitConfig}
use den_browser.RateLimit.{
  Limits, Request, Limit, RateLimiter, new_limit, admit_limit, from_config, admit,
}
use den_browser.RateLimit.Budget.{admitted, universal-admit, from_config-universal, configured_cap}

module _ (lib : Limits) where
  open lib use {Rate, new_rate, observe}

  -- Within one window the estimator reports at least the requests of the address: a sketch may add
  -- those of other addresses.
  pub record IsUpper : Type 0 where
    pub count : Rate → IpAddr → ℕ
    pub reported : Rate → IpAddr → ℕ
    pub observe-eq : (r : Rate) (ip : IpAddr) → (observe r ip).1 ≡ pos (reported r ip)
    pub count-reported : (r : Rate) (ip : IpAddr) → count r ip < reported r ip
    pub count-observe_self : (r : Rate) (ip : IpAddr) → count (observe r ip).0 ip ≡ count r ip + 1
    pub count-observe_ne :
        (r : Rate) (ip other : IpAddr) → ip ≢ other → count (observe r ip).0 other ≡ count r other

  module _ (upper : IsUpper) where
    open upper use {
      count, reported, observe-eq, count-reported, count-observe_self, count-observe_ne,
    }

    abbrev left : Limit lib → ℕ → IpAddr → ℕ
    left u m ip = m - count u.rate ip

    pub admit_limit-cases :
        (u : Limit lib) (m : ℕ) (ip : IpAddr)
        → u.max ≡ pos m
        → ((admit_limit lib u ip).1 ≡ true → count u.rate ip < m)
          × (count (admit_limit lib u ip).0.rate ip ≡ count u.rate ip + 1)
          × ((admit_limit lib u ip).0.max ≡ pos m)
    unfolding admit_limit
    admit_limit-cases u m ip e = (
      λ h. ground (arith, observe-eq u.rate ip, count-reported u.rate ip, e, h),
      count-observe_self u.rate ip,
      e,
    )

    pub admit_limit-other :
        (u : Limit lib) (ip other : IpAddr)
        → (ip == other) ≡ false
        → count (admit_limit lib u ip).0.rate other ≡ count u.rate other
    unfolding admit_limit
    admit_limit-other u ip other ne =
        count-observe_ne u.rate ip other (λ e. ground (arith, eq_iff ip other))

    admitted-le-left :
        (ip : IpAddr) (l : RateLimiter lib) (u : Limit lib) (m : ℕ) (requests : List Request)
        → l.universal ≡ some u
        → u.max ≡ pos m
        → admitted lib ip l requests ≤ left u m ip
    unfolding admitted
    admitted-le-left ip l u m [] h e = omega arith
    admitted-le-left ip l u m ((client, target) ∷ rest) h e =
        let after = admit_limit lib u client in
        let served = universal-admit lib l u client target h in
        let charged = admit_limit-cases u m client e in
        let later =
          admitted-le-left ip (admit lib l client target).0 after.0 m rest served.0 charged.2 in
        elim (Bool-cases (client == ip)) [
          | inl same ↦
              rw (← (eq_iff client ip).0 same)
                (ground (arith, served.1, charged, later, (eq_iff client ip).0 same))
          | inr other ↦ ground (arith, other, later, admit_limit-other u client ip other)
        ]

    -- If the estimator never reports less than what it was told, a limiter built with a window and
    -- a universal cap of m requests, both positive, admits at most m requests of any one address
    -- within a window, whatever the rules and the other requests served in between.
    pub universal_cap :
        (cfg : RateLimitConfig) (l : RateLimiter lib) (m : ℕ) (ip : IpAddr)
        (requests : List Request)
        → from_config lib cfg ≡ ok (some l)
        → 0 < cfg.window_secs
        → 0 < m
        → cfg.max_requests ≡ pos m
        → admitted lib ip l requests ≤ m
    unfolding new_limit
    universal_cap cfg l m ip requests h w p e =
        let u = new_limit lib cfg.window_secs (pos m) in
        let built = from_config-universal lib cfg l h ∙ configured_cap lib cfg m w p e in
        omega (arith, admitted-le-left ip l u m requests built refl)
