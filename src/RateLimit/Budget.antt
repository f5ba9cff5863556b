-- ===== src/RateLimit/Budget.antt =====
-- How many requests of one address proxy/src/ratelimit.rs lets through within a window.
use den_browser.Prelude.{
  ℕ, suc, ◌<◌, ◌≡◌, refl, true, ◌&&◌, List, [], ◌∷◌, some, Text, ◌==◌, arith, Bool-cases, inl, inr,
  if◌then◌else◌, nat_eq,
}
use den_browser.Prelude.Int.{pos}
use den_browser.Prelude.Result.{ok}
use den_browser.Net.{IpAddr, ip_eq}
use den_browser.Config.{RateLimitConfig}
use den_browser.RateLimit.{
  Limits, Request, Limit, RateLimiter, new_limit, admit_limit, build_universal, from_config,
  admit_universal, admit,
}

module _ (lib : Limits) where
  -- The requests of `ip` that are admitted, when the limiter serves all of `requests`.
  unfoldable pub admitted : IpAddr → RateLimiter lib → List Request → ℕ
  admitted ip l [] = 0
  admitted ip l ((client, target) ∷ rest) =
      let later = admitted ip (admit lib l client target).0 rest in
      if client == ip && (admit lib l client target).1 then suc later else later

  pub universal-admit :
      (l : RateLimiter lib) (u : Limit lib) (client : IpAddr) (target : Text)
      → l.universal ≡ some u
      → ((admit lib l client target).0.universal ≡ some (admit_limit lib u client).0)
        × ((admit lib l client target).1 ≡ true → (admit_limit lib u client).1 ≡ true)
  unfolding admit admit_universal
  universal-admit l u client target h = rw h (elim (Bool-cases (admit_limit lib u client).1) [
    | inl yes' ↦ rw yes' (refl, λ _. refl)
    | inr no' ↦ rw no' (refl, λ e. e)
  ])

  pub from_config-universal :
      (cfg : RateLimitConfig) (l : RateLimiter lib)
      → from_config lib cfg ≡ ok (some l)
      → l.universal ≡ build_universal lib cfg
  unfolding from_config
  from_config-universal cfg l h = ground arith

  pub configured_cap :
      (cfg : RateLimitConfig) (m : ℕ)
      → 0 < cfg.window_secs
      → 0 < m
      → cfg.max_requests ≡ pos m
      → build_universal lib cfg ≡ some (new_limit lib cfg.window_secs (pos m))
  unfolding build_universal
  configured_cap cfg m w p e = ground arith
