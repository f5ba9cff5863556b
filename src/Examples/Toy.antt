-- ===== src/Examples/Toy.antt =====
-- The crates of proxy/src/attest.rs replaced by functions that keep the laws the theorems ask for:
-- a number is encoded in unary, and encryption only appends a tag.
use den_browser.Prelude.{
  ℕ, zero, suc, ◌+◌, ◌-◌, ◌%◌, ◌≡◌, refl, ap, ◌∙◌, List, [], ◌∷◌, ◌++◌, Option, none, some, Text,
  Bytes, as_bytes, utf8, length, take, length-append, take-append, ◌==◌, nat_eq, list_eq,
  if◌then◌else◌, arith,
}
use den_browser.Attest.Crates.{Crates}
use den_browser.Attest.Mint.{Client}

abbrev pub zeros : ℕ → Bytes
zeros zero = []
zeros (suc n) = 0 ∷ zeros n

pub length-zeros : (n : ℕ) → length (zeros n) ≡ n
length-zeros zero = refl
length-zeros (suc n) = omega (arith, length-zeros n)

sum : Bytes → ℕ
sum [] = 0
sum (b ∷ bs) = b + sum bs

unfoldable pub sha256 : Bytes → Bytes
unfolding sum
sha256 bs = (sum bs % 256) ∷ zeros 31

-- `n` times an `a` before `rest`.
tally : ℕ → Text → Text
tally zero rest = rest
tally (suc n) rest = b'a' ∷ tally n rest

unfoldable pub encode : Bytes → Text
unfolding tally
encode [] = []
encode (n ∷ ns) = tally n (b'b' ∷ encode ns)

cons {ℓ} : {A : Type ℓ} → A → Option (List A) → Option (List A)
cons a none = none
cons a (some xs) = some (a ∷ xs)

decode_from : ℕ → Bytes → Option Bytes
unfolding cons
decode_from n [] = if n == 0 then some [] else none
decode_from n (c ∷ cs) =
    let more = decode_from (n + 1) cs in
    let next = cons n (decode_from 0 cs) in
    if c == b'a' then more else if c == b'b' then next else none

unfoldable pub decode : Bytes → Option Bytes
unfolding decode_from
decode = decode_from 0

decode-tally :
    (n k : ℕ) (rest : Text)
    → decode_from k (as_bytes (tally n (b'b' ∷ rest)))
      ≡ cons (k + n) (decode_from 0 (as_bytes rest))
unfolding tally decode_from as_bytes utf8
decode-tally zero k rest =
    let e : k ≡ k + 0 = omega arith in ap (λ j. cons j (decode_from 0 (as_bytes rest))) e
decode-tally (suc n) k rest =
    let e : k + 1 + n ≡ k + suc n = omega arith in
    decode-tally n (k + 1) rest ∙ ap (λ j. cons j (decode_from 0 (as_bytes rest))) e

pub decode-encode : (bytes : Bytes) → decode (as_bytes (encode bytes)) ≡ some bytes
unfolding decode encode as_bytes cons decode_from
decode-encode [] = refl
decode-encode (n ∷ ns) =
    let e : 0 + n ≡ n = omega arith in
    decode-tally n 0 (encode ns)
    ∙ ap (λ j. cons j (decode_from 0 (as_bytes (encode ns)))) e
    ∙ ap (cons n) (decode-encode ns)

pub aes_encrypt : Bytes → Bytes → Bytes → Bytes
aes_encrypt key iv plaintext = plaintext ++ zeros 16

pub aes_decrypt : Bytes → Bytes → Bytes → Option Bytes
aes_decrypt key iv ct_tag = some (take (length ct_tag - 16) ct_tag)

pub aes_decrypt-encrypt :
    (key iv plaintext : Bytes) → aes_decrypt key iv (aes_encrypt key iv plaintext) ≡ some plaintext
unfolding aes_decrypt aes_encrypt
aes_decrypt-encrypt key iv plaintext = ap some (
    take-append plaintext (zeros 16) (length (plaintext ++ zeros 16) - 16)
      (omega (arith, length-append plaintext (zeros 16))))

pub length-aes_encrypt :
    (key iv plaintext : Bytes) → length (aes_encrypt key iv plaintext) ≡ length plaintext + 16
unfolding aes_encrypt
length-aes_encrypt key iv plaintext = omega (arith, length-append plaintext (zeros 16))

abbrev pub crates : Crates
crates = record {
  SecretKey = Unit {0};
  PublicKey = Unit {0};
  from_sec1_pem = λ pem. some tt;
  from_sec1_bytes = λ point. some tt;
  diffie_hellman = λ private public. [];
  sha256 = sha256;
  aes_decrypt = aes_decrypt;
  decode = decode;
}

abbrev pub client : Client crates
client = record {
  public_key = λ private. tt;
  to_sec1_bytes = λ point. zeros 65;
  aes_encrypt = aes_encrypt;
  encode = encode;
  length-to_sec1_bytes = λ point. length-zeros 65;
  from_sec1-to_sec1 = λ point. refl;
  diffie_hellman_comm = λ a b. refl;
  length-aes_encrypt = λ key iv plaintext. length-aes_encrypt key iv plaintext;
  aes_decrypt-encrypt = aes_decrypt-encrypt;
  decode-encode = decode-encode;
}
