-- ===== src/Attest/Token/Hex.antt =====
-- The hex SHA-256 of a body: what the client writes, `hex_hash` of proxy/src/attest.rs reads.
use den_browser.Prelude.{
  ℕ, ◌+◌, ◌*◌, ◌/◌, ◌%◌, ◌<◌, ◌≡◌, refl, ◌≢◌, [], ◌∷◌, Bytes, Text, some, arith, All, ltb,
  if◌then◌else◌, nat_eq, length,
}
use den_browser.Prelude.Result.{ok}
use den_browser.Attest.Token.{hex_digit, from_str_radix, hex_hash}

abbrev pub IsBytes : Bytes → Type 0
IsBytes = All (λ b. b < 256)

-- `format!("{b:02x}")` of one byte.
unfoldable pub lower_digit : ℕ → ℕ
lower_digit d = if ltb d 10 then b'0' + d else 87 + d

unfoldable pub hex_text : Bytes → Text
unfolding lower_digit
hex_text [] = []
hex_text (b ∷ bs) = lower_digit (b / 16) ∷ lower_digit (b % 16) ∷ hex_text bs

hex_digit-lower_digit : (d : ℕ) → d < 16 → hex_digit (lower_digit d) ≡ some d
unfolding hex_digit lower_digit
hex_digit-lower_digit d h = ground arith

lower_digit-ne-plus : (d : ℕ) → lower_digit d ≢ b'+'
unfolding lower_digit
lower_digit-ne-plus d = ground arith

from_str_radix-pair :
    (b : ℕ) → b < 256 → from_str_radix (lower_digit (b / 16) ∷ lower_digit (b % 16) ∷ []) ≡ some b
unfolding from_str_radix
from_str_radix-pair b h = ground (
  arith,
  hex_digit-lower_digit (b / 16),
  hex_digit-lower_digit (b % 16),
  lower_digit-ne-plus (b / 16),
)

-- Every byte string comes back from its hex text.
pub hex_hash-hex_text : (bs : Bytes) → IsBytes bs → hex_hash (hex_text bs) ≡ ok bs
unfolding hex_hash hex_text
hex_hash-hex_text [] h = refl
hex_hash-hex_text (b ∷ bs) h = rw (from_str_radix-pair b h.0, hex_hash-hex_text bs h.1)

pub length-hex_text : (bs : Bytes) → length (hex_text bs) ≡ 2 * length bs
unfolding hex_text
length-hex_text [] = refl
length-hex_text (b ∷ bs) = omega (arith, length-hex_text bs)

-- The text of a hash is ASCII without a line break.
pub hex_text-ascii : (bs : Bytes) → IsBytes bs → All (λ c. (10 < c) × (c < 128)) (hex_text bs)
unfolding hex_text lower_digit
hex_text-ascii [] h = tt
hex_text-ascii (b ∷ bs) h = (ground arith, (ground arith, hex_text-ascii bs h.1))
