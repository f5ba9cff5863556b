-- ===== src/Attest/Token.antt =====
-- Steps 7 and 8 of `Verifier::verify_headers` of proxy/src/attest.rs: the decrypted plaintext.
pub mod Split
pub mod Hex
pub mod Reading
use den_browser.Prelude.{
  ℕ, ◌+◌, ◌-◌, ◌*◌, ◌≡◌, refl, Bool, ◌&&◌, List, [], ◌∷◌, Option, none, some, Text, Bytes, text,
  as_bytes, length, ltb, leb, ◌==◌, if◌then◌else◌, nat_eq, list_eq,
}
use den_browser.Prelude.Result.{Result, ok, err, ok_or, guard, ◌>>=◌, ◌>>◌}
use den_browser.Attest.Error.{AttestError, plaintext_mismatch}

pub record AttestInputs : Type 0 where
  pub ts : Text
  pub nonce_b64 : Text
  pub token_b64 : Text
  pub host : Text
  pub method : Text
  pub path : Text

pub data BodyBinding : Type 0 where
  hash : Bytes → BodyBinding
  unbound : BodyBinding

abbrev pub hex_hash_len : ℕ
hex_hash_len = 64

unfoldable pub plaintext_prefix : Bytes
plaintext_prefix = text "denbrowser-attest:v2"

unfoldable pub unbound_sentinel : Bytes
unbound_sentinel = text "unbound"

cons_first : ℕ → List Bytes → List Bytes
cons_first b [] = (b ∷ []) ∷ []
cons_first b (part ∷ parts) = (b ∷ part) ∷ parts

-- `slice::split` on one byte: always one part more than there are separators.
unfoldable pub split : ℕ → Bytes → List Bytes
unfolding cons_first
split sep [] = [] ∷ []
split sep (b ∷ bs) = let parts = split sep bs in if b == sep then [] ∷ parts else cons_first b parts

unfoldable pub hex_digit : ℕ → Option ℕ
hex_digit c =
    if leb b'0' c && leb c b'9'
    then some (c - b'0')
    else if leb b'a' c && leb c b'f'
    then some (c - b'a' + 10)
    else if leb b'A' c && leb c b'F'
    then some (c - b'A' + 10)
    else none

-- Digits after the sign, with the overflow check of `u8`.
hex_digits : ℕ → Bytes → Option ℕ
unfolding hex_digit
hex_digits acc [] = some acc
hex_digits acc (c ∷ cs) = elim (hex_digit c) [
  | none ↦ none
  | some d ↦ if ltb (acc * 16 + d) 256 then hex_digits (acc * 16 + d) cs else none
]

-- `u8::from_str_radix(s, 16)`: a leading `+` is skipped, and a lone sign is an error.
unfoldable pub from_str_radix : Bytes → Option ℕ
unfolding hex_digits
from_str_radix [] = none
from_str_radix (c ∷ []) = hex_digits 0 (c ∷ [])
from_str_radix (c ∷ d ∷ cs) = if c == b'+' then hex_digits 0 (d ∷ cs) else hex_digits 0 (c ∷ d ∷ cs)

-- The loop over `chunks(2)`. Bytes that are no UTF-8 are no digits either, so the error of
-- `from_utf8` and that of `from_str_radix` are one.
unfoldable pub hex_hash : Bytes → Result Bytes AttestError
unfolding from_str_radix
hex_hash [] = ok []
hex_hash (a ∷ []) = do x ← ok_or (from_str_radix (a ∷ [])) plaintext_mismatch; ok (x ∷ [])
hex_hash (a ∷ b ∷ rest) = do
  x ← ok_or (from_str_radix (a ∷ b ∷ [])) plaintext_mismatch
  xs ← hex_hash rest
  ok (x ∷ xs)

-- Step 8.
unfoldable pub body_binding : Bytes → Result BodyBinding AttestError
body_binding field = if field == unbound_sentinel then ok unbound else do
  guard (length field == hex_hash_len) plaintext_mismatch
  bytes ← hex_hash field
  ok (hash bytes)

-- Step 7: seven parts, of which all but the last are compared; the last is returned.
unfoldable pub check_parts : AttestInputs → List Bytes → Result Bytes AttestError
check_parts i (p0 ∷ p1 ∷ p2 ∷ p3 ∷ p4 ∷ p5 ∷ p6 ∷ []) = do
  guard
      (p0 == plaintext_prefix
        && p1 == as_bytes i.nonce_b64
        && p2 == as_bytes i.ts
        && p3 == as_bytes i.host
        && p4 == as_bytes i.method
        && p5 == as_bytes i.path)
      plaintext_mismatch
  ok p6
check_parts i _ = err plaintext_mismatch

unfoldable pub read_plaintext : AttestInputs → Bytes → Result BodyBinding AttestError
unfolding check_parts body_binding split
read_plaintext i plaintext = do field ← check_parts i (split 10 plaintext); body_binding field

-- A pair such as `+f` is read as 15: `from_str_radix` takes a sign that no hash has.
plus_sign_accepted : from_str_radix (text "+f") ≡ some 15
unfolding from_str_radix text
plus_sign_accepted = refl

split_case : split 10 (text "a\nb\n") ≡ text "a" ∷ text "b" ∷ [] ∷ []
unfolding split text
split_case = refl
