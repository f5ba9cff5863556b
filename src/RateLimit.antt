-- ===== src/RateLimit.antt =====
-- proxy/src/ratelimit.rs: the universal cap and the per-pattern rules. The estimator of
-- pingora_limits and the globs of globset are parameters; `admit` returns the limiter with what the
-- estimators have recorded.
pub mod Budget
pub mod Cap
pub mod Rules
use den_browser.Prelude.{
  ℕ, Bool, true, false, not, ◌&&◌, ◌==◌, nat_eq, List, [], ◌∷◌, Option, none, some, Text, ltb,
  if◌then◌else◌,
}
use den_browser.Prelude.Int.{ℤ, pos, ltb_ℤ}
use den_browser.Prelude.Result.{Result, ok, err, ok_or, guard, ◌>>=◌, ◌>>◌}
use den_browser.Net.{IpAddr}
use den_browser.Config.{RateLimitConfig, RuleConfig}

pub record Limits : Type 1 where
  pub Rate : Type 0
  -- `Rate::new` of a window in seconds
  pub new_rate : ℕ → Rate
  -- `observe(ip, 1)`: the count in the current window, this request included
  pub observe : Rate → IpAddr → Rate × ℤ
  pub GlobMatcher : Type 0
  -- `Glob::new(..)` and `compile_matcher`
  pub compile : Text → Option GlobMatcher
  pub is_match : GlobMatcher → Text → Bool

-- The client address and the target, `{host}{path}`.
abbrev pub Request : Type 0
Request = IpAddr × Text

-- The errors of `RateLimiter::from_config`, with the values that they print.
pub data ConfigError : Type 0 where
  rule_zero_window : Text → ConfigError
  rule_bad_cap : Text → ℤ → ConfigError
  invalid_pattern : Text → ConfigError
  nothing_configured : ConfigError

module _ (lib : Limits) where
  open lib use {Rate, new_rate, observe, GlobMatcher, compile, is_match}

  pub record Limit : Type 0 where
    pub rate : Rate
    pub max : ℤ

  pub record Rule : Type 0 where
    pub matcher : GlobMatcher
    pub limit : Limit

  pub record RateLimiter : Type 0 where
    pub universal : Option Limit
    pub rules : List Rule

  unfoldable pub new_limit : ℕ → ℤ → Limit
  new_limit window_secs max = record { rate = new_rate window_secs; max = max }

  unfoldable pub admit_limit : Limit → IpAddr → Limit × Bool
  admit_limit l ip =
      let (rate, count) = observe l.rate ip in (record l { rate = rate }, not (ltb_ℤ l.max count))

  unfoldable pub build_rule : RuleConfig → Result Rule ConfigError
  unfolding new_limit
  build_rule r = do
    guard (not (r.window_secs == 0)) (rule_zero_window r.pattern)
    guard (ltb_ℤ (pos 0) r.max_requests) (rule_bad_cap r.pattern r.max_requests)
    matcher ← ok_or (compile r.pattern) (invalid_pattern r.pattern)
    ok (record { matcher = matcher; limit = new_limit r.window_secs r.max_requests })

  unfoldable pub build_rules : List RuleConfig → Result (List Rule) ConfigError
  build_rules [] = ok []
  build_rules (r ∷ rs) = do rule ← build_rule r; rules ← build_rules rs; ok (rule ∷ rules)

  unfoldable pub build_universal : RateLimitConfig → Option Limit
  unfolding new_limit
  build_universal cfg =
      if ltb 0 cfg.window_secs && ltb_ℤ (pos 0) cfg.max_requests
      then some (new_limit cfg.window_secs cfg.max_requests)
      else none

  -- Whether no layer is configured.
  unfoldable pub is_empty : RateLimiter → Bool
  is_empty l = elim l.universal [
    | none ↦ elim l.rules [ [] ↦ true | _ ∷ _ ↦ false ]
    | some _ ↦ false
  ]

  unfoldable pub from_config : RateLimitConfig → Result (Option RateLimiter) ConfigError
  unfolding is_empty
  from_config cfg = if not cfg.enabled then ok none else do
    rules ← build_rules cfg.rules
    let limiter : RateLimiter = record { universal = build_universal cfg; rules = rules }
    guard (not (is_empty limiter)) nothing_configured
    ok (some limiter)

  -- The first rule that matches is charged, and decides.
  unfoldable pub admit_rules : List Rule → IpAddr → Text → List Rule × Bool
  admit_rules [] ip target = ([], true)
  admit_rules (r ∷ rs) ip target =
      let later = admit_rules rs ip target in
      let charged = admit_limit r.limit ip in
      if is_match r.matcher target
      then (record r { limit = charged.0 } ∷ rs, charged.1)
      else (r ∷ later.0, later.1)

  unfoldable pub admit_universal : Option Limit → IpAddr → Option Limit × Bool
  admit_universal none ip = (none, true)
  admit_universal (some u) ip = let charged = admit_limit u ip in (some charged.0, charged.1)

  unfoldable pub admit : RateLimiter → IpAddr → Text → RateLimiter × Bool
  admit l ip target =
      let charged = admit_universal l.universal ip in
      let ruled = admit_rules l.rules ip target in
      if charged.1
      then (record { universal = charged.0; rules = ruled.0 }, ruled.1)
      else (record l { universal = charged.0 }, false)
