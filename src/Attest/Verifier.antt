-- ===== src/Attest/Verifier.antt =====
-- `Verifier` of proxy/src/attest.rs. The clocks are arguments of the calls that read them, and the
-- replay cache behind the mutex is passed in and returned.
use den_browser.Prelude.{
  ℕ, Bool, true, not, [], ◌∷◌, ◌++◌, Text, Bytes, text, as_bytes, length, take, drop, leb, ◌==◌,
  if◌then◌else◌, nat_eq, list_eq,
}
use den_browser.Prelude.Int.{ℤ}
use den_browser.Prelude.Decimal.{parse_i64}
use den_browser.Prelude.Result.{Result, ok, err, ok_or, guard, ◌>>=◌, ◌>>◌}
use den_browser.Attest.Error.{
  AttestError, bad_timestamp, invalid_nonce, nonce_replay, invalid_token, decrypt_failed,
  body_hash_mismatch,
}
use den_browser.Attest.Window.{SystemTime, Instant, unix_now, check_drift, check_commit_window}
use den_browser.Attest.NonceCache.{NonceCache, Nonce, contains, commit}
use den_browser.Attest.Crates.{Crates}
use den_browser.Attest.Token.{AttestInputs, BodyBinding, hash, unbound, read_plaintext}

abbrev pub nonce_len : ℕ
nonce_len = 16

abbrev pub token_min_len : ℕ
token_min_len = 94

-- State carried from phase 1 into phase 2.
pub record PhaseOne : Type 0 where
  pub nonce : Nonce
  pub body_binding : BodyBinding
  pub ts : ℤ

-- The atomic steps on the cache, each under the lock.
unfoldable pub commit_nonce :
    NonceCache → PhaseOne → SystemTime → Instant → NonceCache × Result (Unit {0}) AttestError
commit_nonce cache p1 wall now =
    if contains cache p1.nonce
    then (cache, err nonce_replay)
    else elim (check_commit_window p1.ts (unix_now wall)) [
      | err e ↦ (cache, err e)
      | ok _ ↦ commit cache p1.nonce now
    ]

-- Whether a bound body has the hash that the token commits to.
unfoldable pub body_matches : BodyBinding → Bytes → Bool
body_matches (hash expected) actual = expected == actual
body_matches unbound actual = true

unfoldable pub verify_body_and_commit :
    NonceCache
    → PhaseOne
    → Bytes
    → SystemTime
    → Instant
    → NonceCache × Result (Unit {0}) AttestError
unfolding body_matches
verify_body_and_commit cache p1 actual wall now =
    if not (body_matches p1.body_binding actual)
    then (cache, err body_hash_mismatch)
    else commit_nonce cache p1 wall now

module _ (lib : Crates) where
  open lib use {
    SecretKey, PublicKey, from_sec1_pem, from_sec1_bytes, diffie_hellman, sha256, aes_decrypt,
    decode,
  }

  -- Steps 1 and 2.
  unfoldable pub read_nonce : AttestInputs → Result Nonce AttestError
  read_nonce i = do
    raw ← ok_or (decode (as_bytes i.nonce_b64)) (invalid_nonce (text "not base64"))
    guard (length raw == nonce_len) (invalid_nonce (text "wrong length"))
    ok raw

  -- Step 5: the key of ANSI X9.63, from the shared secret and the counter 1.
  unfoldable pub derive_key : Bytes → Bytes
  derive_key shared = take 16 (sha256 (shared ++ 0 ∷ 0 ∷ 0 ∷ 1 ∷ []))

  -- Steps 4 to 6.
  unfoldable pub decrypt_token : SecretKey → Text → Result Bytes AttestError
  unfolding derive_key
  decrypt_token private_key token_b64 = do
    raw ← ok_or (decode (as_bytes token_b64)) (invalid_token (text "invalid base64"))
    guard (leb token_min_len (length raw)) (invalid_token (text "token too short"))
    ephem_pub ← ok_or (from_sec1_bytes (take 65 raw)) (invalid_token (text "EC point not on curve"))
    ok_or
        (aes_decrypt (derive_key (diffie_hellman private_key ephem_pub)) (take 12 (drop 65 raw))
          (drop 77 raw))
        decrypt_failed

  -- Phase 1. It reads the cache and changes nothing.
  unfoldable pub verify_headers :
      SecretKey → NonceCache → SystemTime → AttestInputs → Result PhaseOne AttestError
  verify_headers private_key cache wall i = do
    ts ← ok_or (parse_i64 (as_bytes i.ts)) bad_timestamp
    check_drift ts (unix_now wall)
    nonce ← read_nonce i
    guard (not (contains cache nonce)) nonce_replay
    plaintext ← decrypt_token private_key i.token_b64
    binding ← read_plaintext i plaintext
    ok (record { nonce = nonce; body_binding = binding; ts = ts })
