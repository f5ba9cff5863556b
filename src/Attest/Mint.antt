-- ===== src/Attest/Mint.antt =====
-- The client's side as the tests of proxy/src/attest.rs write it (`make_token`,
-- `make_token_with_body_field`, `sha256_hex`), and the round trip through `verify_headers`.
pub mod RoundTrip
use den_browser.Prelude.{
  ℕ, le→leb, ◌+◌, ◌≤◌, ◌<◌, ◌≡◌, refl, sym, ap, ◌∙◌, Bool, true, false, not, List, [], ◌∷◌, ◌++◌,
  Option, none, some, Text, Bytes, text, as_bytes, utf8, length, take, drop, leb, ◌==◌, eq_iff,
  nat_eq, list_eq, arith, contains as mem, All, length-append, take-append, drop-append,
  drop-append_more, if◌then◌else◌,
}
use den_browser.Prelude.Int.{ℤ}
use den_browser.Prelude.Decimal.{parse_i64}
use den_browser.Prelude.Result.{Result, ok, err, ok_or, guard, ◌>>=◌, ◌>>◌}
use den_browser.Attest.Error.{AttestError}
use den_browser.Attest.Window.{SystemTime, unix_now, check_drift}
use den_browser.Attest.NonceCache.{NonceCache, Nonce, contains}
use den_browser.Attest.Crates.{Crates}
use den_browser.Attest.Token.{
  AttestInputs, BodyBinding, hash, unbound, body_binding, read_plaintext, unbound_sentinel,
  plaintext_prefix,
}
use den_browser.Attest.Token.Hex.{
  IsBytes, hex_text, hex_hash-hex_text, length-hex_text, hex_text-ascii,
}
use den_browser.Attest.Token.Reading.{compose, layout, IsOneLine, IsPlain, read_plaintext-compose}
use den_browser.Attest.Verifier.{
  PhaseOne, nonce_len, derive_key, read_nonce, decrypt_token, verify_headers,
}

abbrev zero_iv : Bytes
zero_iv = 0 ∷ 0 ∷ 0 ∷ 0 ∷ 0 ∷ 0 ∷ 0 ∷ 0 ∷ 0 ∷ 0 ∷ 0 ∷ 0 ∷ []

module _ (lib : Crates) where
  open lib use {SecretKey, PublicKey, from_sec1_bytes, diffie_hellman, sha256, aes_decrypt, decode}

  -- The same crates on the client's side, with the laws that make the two sides meet.
  pub record Client : Type 0 where
    pub public_key : SecretKey → PublicKey
    pub to_sec1_bytes : PublicKey → Bytes
    pub aes_encrypt : Bytes → Bytes → Bytes → Bytes
    pub encode : Bytes → Text
    -- an uncompressed point has 65 bytes, and is read back
    pub length-to_sec1_bytes : (p : PublicKey) → length (to_sec1_bytes p) ≡ 65
    pub from_sec1-to_sec1 : (p : PublicKey) → from_sec1_bytes (to_sec1_bytes p) ≡ some p
    -- both sides of an exchange compute one secret
    pub diffie_hellman_comm :
        (a b : SecretKey) → diffie_hellman a (public_key b) ≡ diffie_hellman b (public_key a)
    -- the tag of 16 bytes is appended, and decryption inverts encryption
    pub length-aes_encrypt :
        (key iv plaintext : Bytes) → length (aes_encrypt key iv plaintext) ≡ length plaintext + 16
    pub aes_decrypt-encrypt :
        (key iv plaintext : Bytes)
        → aes_decrypt key iv (aes_encrypt key iv plaintext) ≡ some plaintext
    pub decode-encode : (bytes : Bytes) → decode (as_bytes (encode bytes)) ≡ some bytes

  module _ (client : Client) where
    open client use {public_key, to_sec1_bytes, aes_encrypt, encode}

    -- `token` of the inputs is not read.
    unfoldable pub make_token_with_body_field : SecretKey → PublicKey → AttestInputs → Text → Text
    make_token_with_body_field ephem_priv proxy_pub i body_field =
        let shared = diffie_hellman ephem_priv proxy_pub in
        let ct_tag =
          aes_encrypt (derive_key lib shared) zero_iv (compose i (as_bytes body_field)) in
        encode (to_sec1_bytes (public_key ephem_priv) ++ (zero_iv ++ ct_tag))

    -- `make_token`, with the body field of `sha256_hex`.
    unfoldable pub make_token : SecretKey → PublicKey → AttestInputs → Bytes → Text
    unfolding hex_text
    make_token ephem_priv proxy_pub i body =
        make_token_with_body_field ephem_priv proxy_pub i (hex_text (sha256 body))

    -- The parts of a token are found where the proxy cuts it.
    split_token :
        (point ct_tag : Bytes)
        → length point ≡ 65
        → (take 65 (point ++ (zero_iv ++ ct_tag)) ≡ point)
          × (take 12 (drop 65 (point ++ (zero_iv ++ ct_tag))) ≡ zero_iv)
          × (drop 77 (point ++ (zero_iv ++ ct_tag)) ≡ ct_tag)
          × (length (point ++ (zero_iv ++ ct_tag)) ≡ length ct_tag + 77)
    split_token point ct_tag h = (
      take-append point (zero_iv ++ ct_tag) 65 h,
      rw (drop-append point (zero_iv ++ ct_tag) 65 h),
      drop-append_more point (zero_iv ++ ct_tag) 12 77 (omega arith),
      omega (arith, length-append point (zero_iv ++ ct_tag)),
    )

    compose_nonempty : (i : AttestInputs) (field : Bytes) → 1 ≤ length (compose i field)
    unfolding compose den_browser.Attest.Token.Split.join plaintext_prefix text
    compose_nonempty i field = omega arith

    pub minted_decrypts :
        (key ephem : SecretKey) (i : AttestInputs) (body_field : Text)
        → decrypt_token lib key (make_token_with_body_field ephem (public_key key) i body_field)
          ≡ ok (compose i (as_bytes body_field))
    unfolding decrypt_token make_token_with_body_field
    minted_decrypts key ephem i body_field =
        let point = to_sec1_bytes (public_key ephem) in
        let plaintext = compose i (as_bytes body_field) in
        let secret = derive_key lib (diffie_hellman ephem (public_key key)) in
        let ct_tag = aes_encrypt secret zero_iv plaintext in
        let cut = split_token point ct_tag (client.length-to_sec1_bytes (public_key ephem)) in
        let long : leb 94 (length (point ++ (zero_iv ++ ct_tag))) ≡ true =
          le→leb 94 (length (point ++ (zero_iv ++ ct_tag))) (
            omega (
              arith,
              cut.3,
              client.length-aes_encrypt secret zero_iv plaintext,
              compose_nonempty i (as_bytes body_field),
            )) in
        rw (
          client.decode-encode,
          long,
          cut.0,
          cut.1,
          cut.2,
          client.from_sec1-to_sec1,
          client.diffie_hellman_comm key ephem,
          client.aes_decrypt-encrypt,
        )
