-- ===== src/Prelude/Decimal.antt =====
-- Decimal text of numbers (Rust's `Display`), and `str::parse::<i64>`.
use Prim.Native.Nat.{ℕ, zero, suc, ◌+◌, ◌-◌, ◌*◌, ◌/◌, ◌%◌}
use mathlib.Core.Path.{◌≡◌, refl}
use mathlib.Core.Bool.{◌&&◌}
use mathlib.Core.Option.{Option, none, some}
use mathlib.Core.List.{[], ◌∷◌}
use den_browser.Prelude.Tests.{ltb, leb, if◌then◌else◌}
use den_browser.Prelude.Equality.{◌==◌, nat_eq}
use den_browser.Prelude.Int.{ℤ, pos, negsuc, i64_max}
use den_browser.Prelude.Texts.{Text, Bytes, text}

-- The digits of `n` before `rest`; `n` divisions are more than enough.
digits : ℕ → ℕ → Text → Text
digits zero n rest = rest
digits (suc fuel) n rest =
    let more = digits fuel (n / 10) ((b'0' + n % 10) ∷ rest) in
    if ltb n 10 then (b'0' + n) ∷ rest else more

unfoldable pub show_ℕ : ℕ → Text
unfolding digits
show_ℕ n = digits (suc n) n []

unfoldable pub show_ℤ : ℤ → Text
unfolding show_ℕ
show_ℤ (pos n) = show_ℕ n
show_ℤ (negsuc n) = b'-' ∷ show_ℕ (suc n)

-- The value of a run of digits; `none` at any other byte, and for no digit at all.
unfoldable pub read_digits : ℕ → Bytes → Option ℕ
read_digits acc [] = some acc
read_digits acc (c ∷ cs) =
    let rest = read_digits (acc * 10 + (c - b'0')) cs in
    if leb b'0' c && leb c b'9' then rest else none

read_pos : Bytes → Option ℤ
read_pos [] = none
read_pos (c ∷ cs) = elim (read_digits 0 (c ∷ cs)) [
  | none ↦ none
  | some n ↦ if leb n i64_max then some (pos n) else none
]

neg_of : ℕ → Option ℤ
neg_of zero = some (pos 0)
neg_of (suc n) = if leb n i64_max then some (negsuc n) else none

read_neg : Bytes → Option ℤ
unfolding neg_of
read_neg [] = none
read_neg (c ∷ cs) = elim (read_digits 0 (c ∷ cs)) [ none ↦ none | some n ↦ neg_of n ]

-- One sign at most, then digits, within the range of `i64`.
unfoldable pub parse_i64 : Bytes → Option ℤ
unfolding read_pos read_neg
parse_i64 [] = none
parse_i64 (c ∷ cs) =
    if c == b'+' then read_pos cs else if c == b'-' then read_neg cs else read_pos (c ∷ cs)

parse_i64_cases :
    (parse_i64 (text "-9223372036854775808") ≡ some (negsuc i64_max))
    × (parse_i64 (text "9223372036854775808") ≡ none)
    × (parse_i64 (text "+17") ≡ some (pos 17))
    × (parse_i64 (text "") ≡ none)
unfolding parse_i64 read_digits text
parse_i64_cases = (refl, refl, refl, refl)

show_cases : (show_ℕ 1203 ≡ text "1203") × (show_ℤ (negsuc 0) ≡ text "-1")
unfolding show_ℕ show_ℤ text
show_cases = (refl, refl)
