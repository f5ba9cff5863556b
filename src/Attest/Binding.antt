-- ===== src/Attest/Binding.antt =====
-- What an accepted token says (`verify_headers` of proxy/src/attest.rs): soundness of phase 1, and
-- that one token fixes one request.
use den_browser.Prelude.{
  ◌+◌, ◌≤◌, ◌≡◌, sym, ap, ◌∙◌, false, [], some, Bytes, as_bytes, length, arith, nat_eq,
}
use den_browser.Prelude.Int.{ℤ, pos_part, neg_part, saturating_sub, saturating_abs}
use den_browser.Prelude.Decimal.{parse_i64}
use den_browser.Prelude.Result.{Result, ok, err, ok_or, >>=-eq-ok, ok_or-eq-ok}
use den_browser.Attest.Error.{AttestError}
use den_browser.Attest.Window.{SystemTime, unix_now, check_drift}
use den_browser.Attest.NonceCache.{NonceCache, Nonce, contains}
use den_browser.Attest.Crates.{Crates}
use den_browser.Attest.Token.{AttestInputs, split, body_binding, read_plaintext}
use den_browser.Attest.Token.Reading.{layout, compose, read_plaintext-eq-ok, compose_of_split}
use den_browser.Attest.Verifier.{PhaseOne, nonce_len, read_nonce, decrypt_token, verify_headers}

drift_window :
    (ts now : ℤ)
    → check_drift ts now ≡ ok tt
    → (pos_part ts + neg_part now ≤ pos_part now + neg_part ts + 30)
      × (pos_part now + neg_part ts ≤ pos_part ts + neg_part now + 30)
unfolding check_drift saturating_sub saturating_abs
drift_window ts now h = ground arith

or_empty : Result Bytes AttestError → Bytes
or_empty (ok bytes) = bytes
or_empty (err e) = []

module _ (lib : Crates) where
  open lib use {SecretKey, decode}

  -- What phase 1 has established when it accepts a request.
  pub record IsAccepted (key : SecretKey) (cache : NonceCache) (wall : SystemTime)
      (i : AttestInputs) (p1 : PhaseOne) : Type 0 where
    pub ts_parsed : parse_i64 (as_bytes i.ts) ≡ some p1.ts
    pub not_early :
        pos_part p1.ts + neg_part (unix_now wall) ≤ pos_part (unix_now wall) + neg_part p1.ts + 30
    pub not_late :
        pos_part (unix_now wall) + neg_part p1.ts ≤ pos_part p1.ts + neg_part (unix_now wall) + 30
    pub nonce_decoded : decode (as_bytes i.nonce_b64) ≡ some p1.nonce
    pub nonce_length : length p1.nonce ≡ nonce_len
    pub unseen : contains cache p1.nonce ≡ false
    pub field : Bytes
    pub decrypted : decrypt_token lib key i.token_b64 ≡ ok (compose i field)
    pub parts : split 10 (compose i field) ≡ layout i field
    pub bound : body_binding field ≡ ok p1.body_binding

  read_nonce-eq-ok :
      (i : AttestInputs) {nonce : Nonce}
      → read_nonce lib i ≡ ok nonce
      → (decode (as_bytes i.nonce_b64) ≡ some nonce) × (length nonce ≡ nonce_len)
  unfolding read_nonce
  read_nonce-eq-ok i {nonce} h =
      let (raw, decoded, rest) = >>=-eq-ok (ok_or (decode (as_bytes i.nonce_b64)) _) _ h in
      let raw_decoded = ok_or-eq-ok (decode (as_bytes i.nonce_b64)) _ decoded in
      ground (arith, raw_decoded, rest)

  -- The decrypted token and its binding, when phase 1 accepts.
  verify_headers-plaintext :
      (key : SecretKey) (cache : NonceCache) (wall : SystemTime) (i : AttestInputs) (p1 : PhaseOne)
      → verify_headers lib key cache wall i ≡ ok p1
      → (decrypt_token lib key i.token_b64 ≡ ok (or_empty (decrypt_token lib key i.token_b64)))
        × (read_plaintext i (or_empty (decrypt_token lib key i.token_b64)) ≡ ok p1.body_binding)
  unfolding verify_headers or_empty
  verify_headers-plaintext key cache wall i p1 h = ground arith

  -- The timestamp and the nonce, when phase 1 accepts.
  verify_headers-head :
      (key : SecretKey) (cache : NonceCache) (wall : SystemTime) (i : AttestInputs) (p1 : PhaseOne)
      → verify_headers lib key cache wall i ≡ ok p1
      → (parse_i64 (as_bytes i.ts) ≡ some p1.ts)
        × (check_drift p1.ts (unix_now wall) ≡ ok tt)
        × (read_nonce lib i ≡ ok p1.nonce)
        × (contains cache p1.nonce ≡ false)
  unfolding verify_headers
  verify_headers-head key cache wall i p1 h = ground arith

  -- If `verify_headers` accepts, the timestamp is within 30 s of the proxy clock, the nonce is 16
  -- bytes that the cache does not hold, and the token decrypts to exactly the plaintext composed of
  -- this request's nonce, timestamp, host, method and path, whose last field gives the binding.
  pub verify_headers-IsAccepted :
      (key : SecretKey) (cache : NonceCache) (wall : SystemTime) (i : AttestInputs) (p1 : PhaseOne)
      → verify_headers lib key cache wall i ≡ ok p1
      → IsAccepted key cache wall i p1
  verify_headers-IsAccepted key cache wall i p1 h =
      let head = verify_headers-head key cache wall i p1 h in
      let (opened, matched) = verify_headers-plaintext key cache wall i p1 h in
      let (field, parts, bound) = read_plaintext-eq-ok i _ matched in
      let same = compose_of_split i _ field parts in
      let window = drift_window p1.ts (unix_now wall) head.1 in
      let nonce = read_nonce-eq-ok i head.2 in
      record {
        ts_parsed = head.0;
        not_early = window.0;
        not_late = window.1;
        nonce_decoded = nonce.0;
        nonce_length = nonce.1;
        unseen = head.3;
        field = field;
        decrypted = opened ∙ ap ok same;
        parts = ap (split 10) (sym same) ∙ parts;
        bound = bound;
      }

  -- Two accepted requests that carry one token agree on the bytes of nonce, timestamp, host, method
  -- and path, and on the phase-1 result: the decoded nonce, the timestamp and the body binding.
  pub token_fixes_request :
      (key : SecretKey) (c d : NonceCache) (v w : SystemTime) (i j : AttestInputs) (p q : PhaseOne)
      → i.token_b64 ≡ j.token_b64
      → verify_headers lib key c v i ≡ ok p
      → verify_headers lib key d w j ≡ ok q
      → (p.nonce ≡ q.nonce)
        × (p.ts ≡ q.ts)
        × (p.body_binding ≡ q.body_binding)
        × (as_bytes i.host ≡ as_bytes j.host)
        × (as_bytes i.method ≡ as_bytes j.method)
        × (as_bytes i.path ≡ as_bytes j.path)
        × (as_bytes i.nonce_b64 ≡ as_bytes j.nonce_b64)
        × (as_bytes i.ts ≡ as_bytes j.ts)
  token_fixes_request key c d v w i j p q same first second =
      let a = verify_headers-IsAccepted key c v i p first in
      let b = verify_headers-IsAccepted key d w j q second in
      let opened : compose i a.field ≡ compose j b.field = cc (a.decrypted, b.decrypted, same) in
      let parts : layout i a.field ≡ layout j b.field =
        sym a.parts ∙ ap (split 10) opened ∙ b.parts in
      (
        cc (parts, a.nonce_decoded, b.nonce_decoded),
        cc (parts, a.ts_parsed, b.ts_parsed),
        cc (parts, a.bound, b.bound),
        cc parts,
        cc parts,
        cc parts,
        cc parts,
        cc parts,
      )
