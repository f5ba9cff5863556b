-- ===== src/Attest/Setup.antt =====
-- `Verifier::from_config` of proxy/src/attest.rs. The file system is an argument.
use den_browser.Prelude.{not, [], Text, ◌==◌, list_eq, nat_eq}
use den_browser.Prelude.Result.{Result, ok, map_err, ok_or, guard, ◌>>=◌, ◌>>◌}
use den_browser.Config.{AttestationConfig}
use den_browser.Attest.NonceCache.{NonceCache, default}
use den_browser.Attest.Crates.{Crates}

pub data SetupError : Type 0 where
  no_private_key : SetupError
  cannot_read : Text → Text → SetupError
  cannot_parse : Text → SetupError

module _ (lib : Crates) where
  open lib use {SecretKey, from_sec1_pem}

  -- `Verifier`, with the cache behind its mutex.
  pub record Verifier : Type 0 where
    pub private_key : SecretKey
    pub nonce_cache : NonceCache

  -- The error of `from_pem` is passed on by its caller.
  unfoldable pub from_pem : SetupError → Text → Result Verifier SetupError
  from_pem failed pem = do
    key ← ok_or (from_sec1_pem pem) failed
    ok (record { private_key = key; nonce_cache = default })

  unfoldable pub from_config :
      (Text → Result Text Text) → AttestationConfig → Result Verifier SetupError
  unfolding from_pem
  from_config read_to_string cfg = do
    guard (not (cfg.private_key == [])) no_private_key
    pem ← map_err (cannot_read cfg.private_key) (read_to_string cfg.private_key)
    from_pem (cannot_parse cfg.private_key) pem
