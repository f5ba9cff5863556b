-- ===== src/Attest/Token/Reading.antt =====
-- What `read_plaintext` accepts (steps 7 and 8 of `verify_headers`, proxy/src/attest.rs): the
-- plaintext that the client composes for the request, and no other.
use den_browser.Prelude.{
  ℕ, ◌≡◌, refl, sym, ap, ◌∙◌, Bool, true, false, ◌&&◌, List, [], ◌∷◌, ◌++◌, Bytes, ◌==◌, eq_iff,
  eq_refl, arith, contains, All, as_bytes, nat_eq, list_eq, and_true,
}
use den_browser.Prelude.Result.{ok, >>=-eq-ok}
use den_browser.Attest.Token.{
  AttestInputs, BodyBinding, plaintext_prefix, split, body_binding, check_parts, read_plaintext,
}
use den_browser.Attest.Token.Split.{join, join-split, split-join}

abbrev pub layout : AttestInputs → Bytes → List Bytes
layout i field =
    plaintext_prefix
    ∷ as_bytes i.nonce_b64
    ∷ as_bytes i.ts
    ∷ as_bytes i.host
    ∷ as_bytes i.method
    ∷ as_bytes i.path
    ∷ field
    ∷ []

-- The plaintext that the client signs for a request.
unfoldable pub compose : AttestInputs → Bytes → Bytes
compose i field = join 10 (layout i field)

check_parts-layout : (i : AttestInputs) (field : Bytes) → check_parts i (layout i field) ≡ ok field
unfolding check_parts
check_parts-layout i field = rw (
  eq_refl plaintext_prefix,
  eq_refl (as_bytes i.nonce_b64),
  eq_refl (as_bytes i.ts),
  eq_refl (as_bytes i.host),
  eq_refl (as_bytes i.method),
  eq_refl (as_bytes i.path),
)

check_parts-eq-ok :
    (i : AttestInputs) (parts : List Bytes) (field : Bytes)
    → check_parts i parts ≡ ok field
    → parts ≡ layout i field
unfolding check_parts
check_parts-eq-ok i (p0 ∷ p1 ∷ p2 ∷ p3 ∷ p4 ∷ p5 ∷ p6 ∷ []) field h = ground (
  arith,
  eq_iff p0 plaintext_prefix,
  eq_iff p1 (as_bytes i.nonce_b64),
  eq_iff p2 (as_bytes i.ts),
  eq_iff p3 (as_bytes i.host),
  eq_iff p4 (as_bytes i.method),
  eq_iff p5 (as_bytes i.path),
)
check_parts-eq-ok i _ field h = cc

-- An accepted plaintext has the seven fields of the request.
pub read_plaintext-eq-ok :
    (i : AttestInputs) (plaintext : Bytes) {binding : BodyBinding}
    → read_plaintext i plaintext ≡ ok binding
    → (field : Bytes) × (split 10 plaintext ≡ layout i field) × (body_binding field ≡ ok binding)
unfolding read_plaintext
read_plaintext-eq-ok i plaintext h =
    let (field, checked, bound) = >>=-eq-ok (check_parts i (split 10 plaintext)) body_binding h in
    (field, check_parts-eq-ok i (split 10 plaintext) field checked, bound)

pub compose_of_split :
    (i : AttestInputs) (plaintext field : Bytes)
    → split 10 plaintext ≡ layout i field
    → plaintext ≡ compose i field
unfolding compose
compose_of_split i plaintext field h = sym (join-split 10 plaintext) ∙ ap (join 10) h

abbrev pub IsOneLine : Bytes → Type 0
IsOneLine bytes = contains 10 bytes ≡ false

-- No line break in what the client puts into the plaintext.
pub record IsPlain (i : AttestInputs) (field : Bytes) : Type 0 where
  pub nonce_b64 : IsOneLine (as_bytes i.nonce_b64)
  pub ts : IsOneLine (as_bytes i.ts)
  pub host : IsOneLine (as_bytes i.host)
  pub method : IsOneLine (as_bytes i.method)
  pub path : IsOneLine (as_bytes i.path)
  pub body : IsOneLine field

prefix-IsOneLine : IsOneLine plaintext_prefix
unfolding plaintext_prefix contains den_browser.Prelude.text
prefix-IsOneLine = refl

-- The composed plaintext is read back, with the binding of its last field.
pub read_plaintext-compose :
    (i : AttestInputs) (field : Bytes)
    → IsPlain i field
    → read_plaintext i (compose i field) ≡ body_binding field
unfolding read_plaintext compose
read_plaintext-compose i field p = rw (
  split-join 10 plaintext_prefix
      (as_bytes i.nonce_b64
        ∷ as_bytes i.ts
        ∷ as_bytes i.host
        ∷ as_bytes i.method
        ∷ as_bytes i.path
        ∷ field
        ∷ [])
      (prefix-IsOneLine, (p.nonce_b64, (p.ts, (p.host, (p.method, (p.path, (p.body, tt))))))),
  check_parts-layout i field,
)
