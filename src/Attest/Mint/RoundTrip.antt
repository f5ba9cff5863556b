-- ===== src/Attest/Mint/RoundTrip.antt =====
-- A token that the client mints passes `verify_headers` of proxy/src/attest.rs.
use den_browser.Prelude.{
  ◌+◌, ◌≤◌, ◌<◌, ◌≡◌, refl, ap, ◌∙◌, true, false, [], ◌∷◌, some, Text, Bytes, text, as_bytes,
  length, ◌==◌, eq_iff, nat_eq, list_eq, arith, contains as mem, All, ◌≢◌, Bool-cases, inl, inr,
}
use den_browser.Prelude.Int.{ℤ, pos_part, neg_part, saturating_sub, saturating_abs}
use den_browser.Prelude.Decimal.{parse_i64}
use den_browser.Prelude.Result.{ok, ◌>>=◌}
use den_browser.Attest.Window.{SystemTime, unix_now, check_drift}
use den_browser.Attest.NonceCache.{NonceCache, Nonce, contains}
use den_browser.Attest.Crates.{Crates}
use den_browser.Attest.Token.{AttestInputs, BodyBinding, hash, body_binding, unbound_sentinel}
use den_browser.Attest.Token.Hex.{
  IsBytes, hex_text, hex_hash-hex_text, length-hex_text, hex_text-ascii,
}
use den_browser.Attest.Token.Reading.{IsOneLine, IsPlain, read_plaintext-compose}
use den_browser.Attest.Verifier.{nonce_len, read_nonce, decrypt_token, verify_headers}
use den_browser.Attest.Mint.{Client, make_token_with_body_field, make_token, minted_decrypts}

-- `ts` lies within `max_ts_drift_secs` of `now`.
pub record IsTimely (ts now : ℤ) : Type 0 where
  pub not_early : pos_part ts + neg_part now ≤ pos_part now + neg_part ts + 30
  pub not_late : pos_part now + neg_part ts ≤ pos_part ts + neg_part now + 30

check_drift-timely : (ts now : ℤ) → IsTimely ts now → check_drift ts now ≡ ok tt
unfolding check_drift saturating_sub saturating_abs
check_drift-timely ts now t = ground arith

as_bytes-ascii : (t : Text) → All (λ c. (10 < c) × (c < 128)) t → as_bytes t ≡ t
unfolding as_bytes
as_bytes-ascii [] h = refl
as_bytes-ascii (c ∷ cs) h = ground (arith, as_bytes-ascii cs h.1)

IsOneLine-ascii : (t : Text) → All (λ c. (10 < c) × (c < 128)) t → IsOneLine t
unfolding mem
IsOneLine-ascii [] h = refl
IsOneLine-ascii (c ∷ cs) h = ground (arith, IsOneLine-ascii cs h.1)

hex_text-ne-sentinel : (bs : Bytes) → length bs ≡ 32 → hex_text bs ≢ unbound_sentinel
unfolding unbound_sentinel text
hex_text-ne-sentinel bs l e = omega (arith, ap length e, length-hex_text bs)

body_binding-hex :
    (bs : Bytes) → IsBytes bs → length bs ≡ 32 → body_binding (hex_text bs) ≡ ok (hash bs)
unfolding body_binding
body_binding-hex bs h l = elim (Bool-cases (hex_text bs == unbound_sentinel)) [
  | inl same ↦ absurd (hex_text-ne-sentinel bs l ((eq_iff (hex_text bs) unbound_sentinel).0 same))
  | inr other ↦
      let full : (length (hex_text bs) == 64) ≡ true =
        (eq_iff (length (hex_text bs)) 64).1 (omega (arith, length-hex_text bs)) in
      rw (other, full, hex_hash-hex_text bs h)
]

module _ (lib : Crates) (client : Client lib) where
  open lib use {SecretKey, sha256, decode}
  open client use {public_key}

  -- What the client and the proxy's state must satisfy for a request to pass phase 1.
  pub record IsFresh (cache : NonceCache) (wall : SystemTime) (i : AttestInputs) (nonce : Nonce)
      (ts : ℤ) : Type 0 where
    pub ts_parsed : parse_i64 (as_bytes i.ts) ≡ some ts
    pub timely : IsTimely ts (unix_now wall)
    pub nonce_decoded : decode (as_bytes i.nonce_b64) ≡ some nonce
    pub nonce_length : length nonce ≡ nonce_len
    pub unseen : contains cache nonce ≡ false

  read_nonce_lem :
      (i : AttestInputs) (nonce : Nonce)
      → decode (as_bytes i.nonce_b64) ≡ some nonce
      → length nonce ≡ nonce_len
      → read_nonce lib i ≡ ok nonce
  unfolding read_nonce
  read_nonce_lem i nonce d l = rw (d, (eq_iff (length nonce) nonce_len).1 l)

  -- What phase 1 makes of a token for its own request is what `body_binding` makes of the body field
  -- that it was minted with, whatever that is: the binding, or the refusal of a malformed field;
  -- provided that the timestamp is within 30 s of the clock, the nonce is 16 bytes that the cache
  -- does not hold, and no field has a line break.
  pub minted_verifies :
      (key ephem : SecretKey) (cache : NonceCache) (wall : SystemTime) (i : AttestInputs)
      (nonce : Nonce) (ts : ℤ) (body_field : Text)
      → i.token_b64 ≡ make_token_with_body_field lib client ephem (public_key key) i body_field
      → IsFresh cache wall i nonce ts
      → IsPlain i (as_bytes body_field)
      → verify_headers lib key cache wall i ≡ (do
        binding ← body_binding (as_bytes body_field)
        ok (record { nonce = nonce; body_binding = binding; ts = ts }))
  unfolding verify_headers
  minted_verifies key ephem cache wall i nonce ts body_field minted fresh plain =
      rw
        (
          fresh.ts_parsed,
          check_drift-timely ts (unix_now wall) fresh.timely,
          read_nonce_lem i nonce fresh.nonce_decoded fresh.nonce_length,
          fresh.unseen,
          ap (decrypt_token lib key) minted ∙ minted_decrypts lib client key ephem i body_field,
          read_plaintext-compose i (as_bytes body_field) plain,
        )
        refl

  -- A token minted with a field that reads as a binding is accepted with that binding, on the same
  -- conditions.
  pub minted_verifies_bound :
      (key ephem : SecretKey) (cache : NonceCache) (wall : SystemTime) (i : AttestInputs)
      (nonce : Nonce) (ts : ℤ) (body_field : Text) (binding : BodyBinding)
      → i.token_b64 ≡ make_token_with_body_field lib client ephem (public_key key) i body_field
      → IsFresh cache wall i nonce ts
      → IsPlain i (as_bytes body_field)
      → body_binding (as_bytes body_field) ≡ ok binding
      → verify_headers lib key cache wall i
        ≡ ok (record { nonce = nonce; body_binding = binding; ts = ts })
  minted_verifies_bound key ephem cache wall i nonce ts body_field binding minted fresh plain
        bound =
      minted_verifies key ephem cache wall i nonce ts body_field minted fresh plain
      ∙ ap (λ r. r >>= (λ b. ok (record { nonce = nonce; body_binding = b; ts = ts }))) bound

  -- A token that `make_token` mints for a body is accepted by the verifier that holds the key, with
  -- the body's SHA-256 as the binding, if the headers are plain text without line ends, the nonce
  -- is new and the timestamp in the window, and the hash is 32 bytes.
  pub make_token_verifies :
      (key ephem : SecretKey) (cache : NonceCache) (wall : SystemTime) (i : AttestInputs)
      (nonce : Nonce) (ts : ℤ) (body : Bytes)
      → i.token_b64 ≡ make_token lib client ephem (public_key key) i body
      → IsFresh cache wall i nonce ts
      → IsPlain i []
      → IsBytes (sha256 body)
      → length (sha256 body) ≡ 32
      → verify_headers lib key cache wall i
        ≡ ok (record { nonce = nonce; body_binding = hash (sha256 body); ts = ts })
  unfolding make_token
  make_token_verifies key ephem cache wall i nonce ts body minted fresh plain bytes l =
      let digest = sha256 body in
      let ascii = hex_text-ascii digest bytes in
      let same = as_bytes-ascii (hex_text digest) ascii in
      minted_verifies_bound key ephem cache wall i nonce ts (hex_text digest) (hash digest) minted
        fresh
        (record {
          nonce_b64 = plain.nonce_b64;
          ts = plain.ts;
          host = plain.host;
          method = plain.method;
          path = plain.path;
          body = rw same (IsOneLine-ascii (hex_text digest) ascii);
        })
        (rw same (body_binding-hex digest bytes l))
