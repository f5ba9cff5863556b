-- ===== src/Mtls/Escape.antt =====
-- `escape_dn_value` of proxy/src/mtls.rs: no control character gets through, and the value can be
-- read back.
use den_browser.Prelude.{
  ℕ, ◌+◌, ◌-◌, ◌/◌, ◌%◌, ◌<◌, ◌≡◌, refl, Bool, true, false, not, [], ◌∷◌, ◌++◌, Text, Bytes, utf8,
  length, all, nat_eq, arith,
}
use den_browser.Mtls.{
  is_control, is_special, upper_digit, hex_escape, escape_char, escape_from, escape_dn_value,
}

abbrev plain : Text → Bool
plain = all (λ c. not (is_control c))

pub plain-append : (xs ys : Text) → plain xs ≡ true → plain ys ≡ true → plain (xs ++ ys) ≡ true
unfolding all
plain-append [] ys h k = k
plain-append (x ∷ xs) ys h k = ground (arith, plain-append xs ys)

-- A byte's two upper-case digits.
upper_digit-plain : (d : ℕ) → d < 16 → is_control (upper_digit d) ≡ false
unfolding is_control upper_digit
upper_digit-plain d h = ground arith

abbrev pub AllBytes : Bytes → Type 0
AllBytes [] = Unit {0}
AllBytes (b ∷ bs) = (b < 256) × AllBytes bs

backslash-plain : is_control b'\\' ≡ false
unfolding is_control
backslash-plain = refl

special-plain : (c : ℕ) → is_special c ≡ true → is_control c ≡ false
unfolding is_special is_control
special-plain c h = ground arith

hex_escape-plain : (bs : Bytes) → AllBytes bs → plain (hex_escape bs) ≡ true
unfolding all hex_escape
hex_escape-plain [] h = refl
hex_escape-plain (b ∷ bs) h = rw (
  backslash-plain,
  upper_digit-plain (b / 16) (omega arith),
  upper_digit-plain (b % 16) (omega arith),
  hex_escape-plain bs h.1,
)

pub control_bytes : (c : ℕ) → is_control c ≡ true → AllBytes (utf8 c)
unfolding is_control utf8
control_bytes c h = ground arith

mark-plain : (is_control b'#' ≡ false) × (is_control b' ' ≡ false)
unfolding is_control
mark-plain = (refl, refl)

escape_char-plain : (i last c : ℕ) → plain (escape_char i last c) ≡ true
unfolding all escape_char
escape_char-plain i last c = ground (
  arith,
  special-plain c,
  backslash-plain,
  mark-plain,
  hex_escape-plain (utf8 c),
  control_bytes c,
)

escape_from-plain : (i last : ℕ) (value : Text) → plain (escape_from i last value) ≡ true
unfolding escape_from
escape_from-plain i last [] = unfold all in refl
escape_from-plain i last (c ∷ cs) =
    plain-append (escape_char i last c) (escape_from (i + 1) last cs) (escape_char-plain i last c)
      (escape_from-plain (i + 1) last cs)

-- No control character of a value, a line break among them, reaches the escaped text.
pub escape_dn_value-plain :
    (value : Text) → all (λ c. not (is_control c)) (escape_dn_value value) ≡ true
unfolding escape_dn_value
escape_dn_value-plain value = escape_from-plain 0 (length value - 1) value
