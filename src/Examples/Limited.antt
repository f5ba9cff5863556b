-- ===== src/Examples/Limited.antt =====
-- The limiter of proxy/src/ratelimit.rs, with the estimator of `Parameters`.
use den_browser.Prelude.{◌≤◌, ◌≡◌, refl, true, List, [], ◌∷◌, text, arith}
use den_browser.Prelude.Int.{pos}
use den_browser.Prelude.Result.{ok}
use den_browser.Prelude.{some, none}
use den_browser.Net.{v4}
use den_browser.Config.{RateLimitConfig}
use den_browser.RateLimit.{
  Request, RateLimiter, from_config, build_rules, build_universal, build_rule, new_limit, is_empty,
}
use den_browser.RateLimit.Budget.{admitted}
use den_browser.RateLimit.Cap.{universal_cap}
use den_browser.RateLimit.Rules.{get_elem?, rule_admitted, rule_cap}
use den_browser.Examples.Parameters.{limits, upper}

abbrev two : RateLimitConfig
two = record { enabled = true; window_secs = 60; max_requests = pos 2; rules = [] }

abbrev limiter : RateLimiter limits
limiter = record { universal = some (record { rate = λ ip. 0; max = pos 2 }); rules = [] }

built : from_config limits two ≡ ok (some limiter)
unfolding from_config build_rules build_universal new_limit is_empty
built = refl

abbrev requests : List Request
requests = (v4 1, text "a/") ∷ (v4 2, text "a/") ∷ (v4 1, text "a/") ∷ (v4 1, text "a/x") ∷ []

universal_cap_example : admitted limits (v4 1) limiter requests ≤ 2
universal_cap_example =
    universal_cap limits upper two limiter 2 (v4 1) requests built (omega arith) (omega arith) refl

-- One request in a window for each path below `a/`.
abbrev limited : RateLimitConfig
limited = record {
  enabled = true;
  window_secs = 0;
  max_requests = pos 0;
  rules =
      record { pattern = text "a/"; window_secs = 5; max_requests = pos 7 }
      ∷ record { pattern = text "a/x"; window_secs = 60; max_requests = pos 1 }
      ∷ [];
}

abbrev ruled : RateLimiter limits
ruled = record {
  universal = none;
  rules =
      record { matcher = text "a/"; limit = record { rate = λ ip. 0; max = pos 7 } }
      ∷ record { matcher = text "a/x"; limit = record { rate = λ ip. 0; max = pos 1 } }
      ∷ [];
}

ruled_built : from_config limits limited ≡ ok (some ruled)
unfolding from_config build_rules build_rule build_universal new_limit is_empty
ruled_built = refl

rule_cap_example : rule_admitted limits 1 (v4 1) ruled requests ≤ 1
unfolding get_elem?
rule_cap_example =
    rule_cap limits upper limited ruled 1
      (record { pattern = text "a/x"; window_secs = 60; max_requests = pos 1 }) 1 (v4 1) requests
      ruled_built refl refl
