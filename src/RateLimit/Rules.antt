-- ===== src/RateLimit/Rules.antt =====
-- How many requests of one address a rule of proxy/src/ratelimit.rs lets through within a window,
-- when the estimator never counts too few.
use den_browser.Prelude.{
  ℕ, zero, suc, ◌-◌, ◌≤◌, ◌≡◌, refl, ap, ◌∙◌, true, false, ◌&&◌, ◌⊎◌, List, [], ◌∷◌, Option, none,
  some, Text, ◌==◌, eq_iff, arith, Bool-cases, inl, inr, if◌then◌else◌, nat_eq,
}
use den_browser.Prelude.Int.{pos}
use den_browser.Prelude.Result.{ok, Result-cases}
use den_browser.Net.{IpAddr, ip_eq}
use den_browser.Config.{RateLimitConfig, RuleConfig}
use den_browser.RateLimit.{
  Limits, Request, Rule, RateLimiter, new_limit, admit_limit, build_rule, build_rules, from_config,
  admit_rules, admit_universal, admit,
}
use den_browser.RateLimit.Cap.{IsUpper, admit_limit-cases, admit_limit-other}

-- The entry at an index.
unfoldable pub get_elem? {ℓ} : {A : Type ℓ} → List A → ℕ → Option A
get_elem? [] k = none
get_elem? (x ∷ xs) zero = some x
get_elem? (x ∷ xs) (suc k) = get_elem? xs k

module _ (lib : Limits) where
  open lib use {Rate, is_match}

  -- The index of the first rule that matches.
  unfoldable pub first_rule : List (Rule lib) → Text → ℕ
  first_rule [] target = 0
  first_rule (r ∷ rs) target =
      let later = first_rule rs target in if is_match r.matcher target then 0 else suc later

  -- The requests of `ip` that are admitted and whose first matching rule is the one at `k`, when
  -- the limiter serves all of `requests`.
  unfoldable pub rule_admitted : ℕ → IpAddr → RateLimiter lib → List Request → ℕ
  unfolding first_rule
  rule_admitted k ip l [] = 0
  rule_admitted k ip l ((client, target) ∷ rest) =
      let later = rule_admitted k ip (admit lib l client target).0 rest in
      if client == ip && first_rule l.rules target == k && (admit lib l client target).1
      then suc later
      else later

  abbrev charge : Rule lib → IpAddr → Rule lib
  charge r ip = record r { limit = (admit_limit lib r.limit ip).0 }

  -- A pass through the rules charges the first that matches, and no other.
  admit_rules-cases :
      (rs : List (Rule lib)) (k : ℕ) (r : Rule lib) (ip : IpAddr) (target : Text)
      → get_elem? rs k ≡ some r
      → (((first_rule rs target == k) ≡ false)
          × (get_elem? (admit_rules lib rs ip target).0 k ≡ some r))
        ⊎ (((first_rule rs target == k) ≡ true)
            × (get_elem? (admit_rules lib rs ip target).0 k ≡ some (charge r ip))
            × ((admit_rules lib rs ip target).1 ≡ (admit_limit lib r.limit ip).1))
  unfolding get_elem? first_rule admit_rules
  admit_rules-cases [] k r ip target h = absurd cc
  admit_rules-cases (x ∷ rs) zero r ip target h =
      let e : x ≡ r = cc in
      elim (Bool-cases (is_match x.matcher target)) [
        | inl hit ↦ inr (
          rw hit refl,
          rw hit (ap (λ y. some (charge y ip)) e),
          rw hit (ap (λ (y : Rule lib). (admit_limit lib y.limit ip).1) e),
        )
        | inr miss ↦ inl (ground (arith, miss), rw miss h)
      ]
  admit_rules-cases (x ∷ rs) (suc k) r ip target h = elim (Bool-cases (is_match x.matcher target)) [
    | inl hit ↦ inl (ground (arith, hit), rw hit h)
    | inr miss ↦ elim (admit_rules-cases rs k r ip target h) [
      | inl (other, kept) ↦ inl (ground (arith, miss, other), rw miss kept)
      | inr (mine, after, decided) ↦
          inr (ground (arith, miss, mine), rw miss after, rw miss decided)
    ]
  ]

  -- What a call of `admit` does to the rule at `k`.
  admit-cases :
      (l : RateLimiter lib) (k : ℕ) (r : Rule lib) (ip : IpAddr) (target : Text)
      → get_elem? l.rules k ≡ some r
      → (((first_rule l.rules target == k && (admit lib l ip target).1) ≡ false)
          × (get_elem? (admit lib l ip target).0.rules k ≡ some r))
        ⊎ (((first_rule l.rules target == k) ≡ true)
            × (get_elem? (admit lib l ip target).0.rules k ≡ some (charge r ip))
            × ((admit lib l ip target).1 ≡ (admit_limit lib r.limit ip).1))
  unfolding admit
  admit-cases l k r ip target h = elim (Bool-cases (admit_universal lib l.universal ip).1) [
    | inl passed ↦ elim (admit_rules-cases l.rules k r ip target h) [
      | inl (other, kept) ↦ inl (ground (arith, other), rw passed kept)
      | inr (charged, after, decided) ↦ inr (charged, rw passed after, rw passed decided)
    ]
    | inr refused ↦ inl (ground (arith, refused), rw refused h)
  ]

  build_rules-cons :
      (x : RuleConfig) (rcs : List RuleConfig) (rs : List (Rule lib))
      → build_rules lib (x ∷ rcs) ≡ ok rs
      → (r : Rule lib) × (later : List (Rule lib)) × (build_rule lib x ≡ ok r)
        × (build_rules lib rcs ≡ ok later)
        × (rs ≡ r ∷ later)
  unfolding build_rules
  build_rules-cons x rcs rs h = elim (Result-cases (build_rule lib x)) [
    | inl (r, made) ↦ elim (Result-cases (build_rules lib rcs)) [
      | inl (later, rest) ↦ (r, later, made, rest, ground (arith, made, rest))
      | inr (f, failed) ↦ absurd (ground (arith, made, failed))
    ]
    | inr (f, failed) ↦ absurd (ground (arith, failed))
  ]

  build_rule-max :
      (x : RuleConfig) (r : Rule lib) → build_rule lib x ≡ ok r → r.limit.max ≡ x.max_requests
  unfolding build_rule new_limit
  build_rule-max x r h = ground arith

  build_rules-get_elem? :
      (rcs : List RuleConfig) (rs : List (Rule lib)) (k : ℕ) (rc : RuleConfig)
      → build_rules lib rcs ≡ ok rs
      → get_elem? rcs k ≡ some rc
      → (r : Rule lib) × (get_elem? rs k ≡ some r) × (r.limit.max ≡ rc.max_requests)
  unfolding get_elem?
  build_rules-get_elem? [] rs k rc h e = absurd cc
  build_rules-get_elem? (x ∷ rcs) rs zero rc h e =
      let (r, later, made, rest, whole) = build_rules-cons x rcs rs h in
      let same : x ≡ rc = cc in
      (r, rw whole refl, build_rule-max x r made ∙ ap (λ (y : RuleConfig). y.max_requests) same)
  build_rules-get_elem? (x ∷ rcs) rs (suc k) rc h e =
      let (r, later, made, rest, whole) = build_rules-cons x rcs rs h in
      let (found, there, capped) = build_rules-get_elem? rcs later k rc rest e in
      (found, rw whole there, capped)

  from_config-rules :
      (cfg : RateLimitConfig) (l : RateLimiter lib)
      → from_config lib cfg ≡ ok (some l)
      → build_rules lib cfg.rules ≡ ok l.rules
  unfolding from_config
  from_config-rules cfg l h = ground arith

  module _ (upper : IsUpper lib) where
    open upper use {count}

    rule_admitted-le :
        (k : ℕ) (ip : IpAddr) (l : RateLimiter lib) (r : Rule lib) (m : ℕ) (requests : List Request)
        → get_elem? l.rules k ≡ some r
        → r.limit.max ≡ pos m
        → rule_admitted k ip l requests ≤ m - count r.limit.rate ip
    unfolding rule_admitted
    rule_admitted-le k ip l r m [] h e = omega arith
    rule_admitted-le k ip l r m ((client, target) ∷ rest) h e =
        let next = (admit lib l client target).0 in
        let charged = admit_limit-cases lib upper r.limit m client e in
        elim (admit-cases l k r client target h) [
          | inl (other, kept) ↦ ground (arith, other, rule_admitted-le k ip next r m rest kept e)
          | inr (mine, after, decided) ↦
              let later = rule_admitted-le k ip next (charge r client) m rest after charged.2 in
              elim (Bool-cases (client == ip)) [
                | inl same ↦
                    rw (← (eq_iff client ip).0 same)
                      (ground (arith, mine, decided, charged, later, (eq_iff client ip).0 same))
                | inr different ↦ ground (
                  arith,
                  different,
                  later,
                  admit_limit-other lib upper r.limit client ip different,
                )
              ]
        ]

    -- If the estimator never reports less than what it was told, then of the requests of one
    -- address for which a rule is the first that matches, at most as many are admitted within a
    -- window as the configuration gives the rule, whatever the universal cap, the other rules and
    -- the requests served in between.
    pub rule_cap :
        (cfg : RateLimitConfig) (l : RateLimiter lib) (k : ℕ) (rc : RuleConfig) (m : ℕ)
        (ip : IpAddr) (requests : List Request)
        → from_config lib cfg ≡ ok (some l)
        → get_elem? cfg.rules k ≡ some rc
        → rc.max_requests ≡ pos m
        → rule_admitted k ip l requests ≤ m
    rule_cap cfg l k rc m ip requests h at e =
        let (r, there, capped) =
          build_rules-get_elem? cfg.rules l.rules k rc (from_config-rules cfg l h) at in
        omega (arith, rule_admitted-le k ip l r m requests there (capped ∙ e))
