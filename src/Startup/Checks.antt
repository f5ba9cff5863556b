-- ===== src/Startup/Checks.antt =====
-- Which components the configurations of proxy/src make, and which certificates `main` lets stand
-- side by side.
use den_browser.Prelude.{
  ◌≡◌, Bool, true, false, List, [], ◌∷◌, Option, Text, Bytes, any, All, arith, Bool-cases, inl, inr,
  ◌⊎◌, list_eq, nat_eq,
}
use den_browser.Prelude.Result.{Result, ok}
use den_browser.Config.{
  ProxyConfig, AttestationConfig, RateLimitConfig, MtlsConfig, MachineIdentityConfig,
  ProxyBypassConfig,
}
use den_browser.RateLimit
use den_browser.RateLimit.{Limits, RateLimiter, build_rules}
use den_browser.Mtls
use den_browser.Mtls.{Certificate, Mtls}
use den_browser.Machine
use den_browser.Machine.{Trust, MachineIdentity, compile_patterns}
use den_browser.Passthrough
use den_browser.Passthrough.{Nets, BypassPolicy, parse_ranges}
use den_browser.UpstreamTls
use den_browser.UpstreamTls.{UpstreamTls}
use den_browser.Attest.Crates.{Crates}
use den_browser.Attest.NonceCache.{default}
use den_browser.Attest.Setup
use den_browser.Attest.Setup.{Verifier}
use den_browser.Startup.{is_some}

pub limiter-is_some :
    (lib : Limits) (cfg : RateLimitConfig) (l : Option (RateLimiter lib))
    → RateLimit.from_config lib cfg ≡ ok l
    → is_some l ≡ cfg.enabled
unfolding RateLimit.from_config
limiter-is_some lib cfg l h = ground (arith, h)

pub mtls-is_some :
    (read : Text → Result Bytes Text) (parse : Bytes → Result (List Certificate) Text)
    (cfg : MtlsConfig) (m : Option Mtls)
    → Mtls.from_config read parse cfg ≡ ok m
    → is_some m ≡ cfg.enabled
unfolding Mtls.from_config
mtls-is_some read parse cfg m h = ground (arith, h)

pub machine-is_some :
    (lib : Trust) (read : Text → Result Bytes Text) (cfg : MachineIdentityConfig)
    (m : Option (MachineIdentity lib))
    → Machine.from_config lib read cfg ≡ ok m
    → is_some m ≡ cfg.enabled
unfolding Machine.from_config
machine-is_some lib read cfg m h = ground (arith, h)

pub bypass-is_some :
    (lib : Nets) (cfg : ProxyBypassConfig) (mtls : Bool) (p : Option (BypassPolicy lib))
    → Passthrough.from_config lib cfg mtls ≡ ok p
    → (is_some p ≡ cfg.enabled) × ((cfg.enabled ≡ false) ⊎ (mtls ≡ true))
unfolding Passthrough.from_config
bypass-is_some lib cfg mtls p h = (
  ground (arith, h),
  elim (Bool-cases cfg.enabled) [ inr off ↦ inl off | inl on ↦ inr (ground (arith, h, on)) ],
)

pub upstream_tls-insecure :
    (read : Text → Result Bytes Text) (parse : Bytes → Result (List Certificate) Text)
    (cfg : ProxyConfig) (insecure : Bool) (t : UpstreamTls read parse)
    → UpstreamTls.from_config read parse cfg insecure ≡ ok t
    → t.insecure ≡ insecure
unfolding UpstreamTls.from_config
upstream_tls-insecure read parse cfg insecure t h = ground (arith, h)

pub verifier-empty :
    (lib : Crates) (read : Text → Result Text Text) (cfg : AttestationConfig) (v : Verifier lib)
    → Setup.from_config lib read cfg ≡ ok v
    → v.nonce_cache ≡ default
unfolding Setup.from_config
verifier-empty lib read cfg v h = ground (arith, h)

-- A test that holds of no element.
pub any-none {ℓ} :
    {A : Type ℓ} (p : A → Bool) (xs : List A) → any p xs ≡ false → All (λ x. p x ≡ false) xs
unfolding any
any-none p [] h = tt
any-none p (x ∷ xs) h = (ground (arith, h), any-none p xs (ground (arith, h)))
