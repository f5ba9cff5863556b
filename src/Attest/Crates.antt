-- ===== src/Attest/Crates.antt =====
-- The third-party crates that proxy/src/attest.rs calls: base64, p256, sha2 and aes-gcm.
use den_browser.Prelude.{Option, Text, Bytes}

-- `none` is the error of each call.
pub record Crates : Type 1 where
  pub SecretKey : Type 0
  pub PublicKey : Type 0
  pub from_sec1_pem : Text → Option SecretKey
  pub from_sec1_bytes : Bytes → Option PublicKey
  pub diffie_hellman : SecretKey → PublicKey → Bytes
  pub sha256 : Bytes → Bytes
  -- `Aes128Gcm::decrypt` of a key, a nonce and a ciphertext with its tag
  pub aes_decrypt : Bytes → Bytes → Bytes → Option Bytes
  -- `STANDARD.decode`
  pub decode : Bytes → Option Bytes
