-- ===== src/Config/Env.antt =====
-- The `${NAME}` references of proxy/src/config/env.rs in one string: `expand_str`.
pub mod Expansion
pub mod Literal
pub mod Suffix
pub mod Errors
pub mod Substitution
pub mod Escape
pub mod Tree
use den_browser.Prelude.{
  ℕ, zero, suc, ◌/◌, ◌%◌, ◌≡◌, refl, Bool, true, false, ◌&&◌, ◌||◌, List, [], ◌∷◌, ◌++◌, Option,
  none, some, Text, Bytes, text, is_whitespace, leb, ◌==◌, nat_eq, if◌then◌else◌, all, drop, length,
  list_eq, list_beq,
}
use den_browser.Prelude.Result.{Result, ok, err}

pub data VarError : Type 0 where
  not_present : VarError
  not_unicode : Bytes → VarError

-- `std::env::var` in production.
abbrev pub Lookup : Type 0
Lookup = Text → Result Text VarError

unfoldable pub is_padding : ℕ → Bool
unfolding is_whitespace
is_padding c =
    is_whitespace c
    || c == 0xfeff
    || c == 0x200b
    || c == 0x200c
    || c == 0x200d
    || c == 0x2060
    || c == 0x180e

unfoldable pub is_ascii_alphabetic : ℕ → Bool
is_ascii_alphabetic c = leb b'A' c && leb c b'Z' || leb b'a' c && leb c b'z'

unfoldable pub is_name_char : ℕ → Bool
unfolding is_ascii_alphabetic
is_name_char c = is_ascii_alphabetic c || leb b'0' c && leb c b'9' || c == b'_'

unfoldable pub is_valid_name : Text → Bool
unfolding is_ascii_alphabetic is_name_char all
is_valid_name [] = false
is_valid_name (c ∷ cs) = (is_ascii_alphabetic c || c == b'_') && all is_name_char cs

-- `starts_with(is_padding)` and `ends_with(is_padding)`.
unfoldable pub starts_padded : Text → Bool
unfolding is_padding
starts_padded [] = false
starts_padded (c ∷ cs) = is_padding c

unfoldable pub ends_padded : Text → Bool
unfolding is_padding
ends_padded [] = false
ends_padded (c ∷ []) = is_padding c
ends_padded (c ∷ d ∷ ds) = ends_padded (d ∷ ds)

abbrev pub extend_front : ℕ → Option (Text × Text) → Option (Text × Text)
extend_front d none = none
extend_front d (some (front, back)) = some (d ∷ front, back)

-- `str::find` of a character, with the text before it and the text after it.
unfoldable pub split_at : ℕ → Text → Option (Text × Text)
split_at c [] = none
split_at c (d ∷ ds) =
    let later = extend_front d (split_at c ds) in if d == c then some ([], ds) else later

-- The length of the run of `$` a text begins with.
unfoldable pub dollars : Text → ℕ
dollars [] = 0
dollars (c ∷ cs) = let rest = dollars cs in if c == b'$' then suc rest else 0

-- `"$".repeat(n)`.
unfoldable pub repeat_dollar : ℕ → Text
repeat_dollar zero = []
repeat_dollar (suc n) = b'$' ∷ repeat_dollar n

-- `strip_prefix('{')`.
unfoldable pub strip_brace : Text → Option Text
strip_brace [] = none
strip_brace (c ∷ cs) = if c == b'{' then some cs else none

-- The variable as an error names it.
unfoldable pub var : Bool → Text → Text
unfolding text
var secret name =
    if secret
    then text "a referenced environment variable"
    else text "environment variable `" ++ name ++ text "`"

unfoldable pub unterminated : Text
unfolding text
unterminated = text "unterminated `${` (write `$${` for a literal `${`)"

unfoldable pub invalid_reference : Text
unfolding text
invalid_reference =
    text "invalid `${...}` reference: a variable name is ASCII letters, digits and `_`, "
    ++ text "not starting with a digit, and `${NAME:-default}` forms are not supported "
    ++ text "(write `$${` for a literal `${`)"

unfoldable pub is_blank : Text
unfolding text
is_blank = text " is empty or only whitespace or invisible characters"

unfoldable pub is_padded : Text
unfolding text
is_padded =
    text " begins or ends with whitespace or an invisible character, such as the trailing newline "
    ++ text "or byte-order mark of a file it was read from"

unfoldable pub is_not_set : Text
unfolding text
is_not_set = text " is not set"

unfoldable pub is_not_unicode : Text
unfolding text
is_not_unicode = text " is not valid Unicode"

-- The value of a reference, or the error it stops with.
unfoldable pub reference : Lookup → Bool → Text → Result Text Text
unfolding all starts_padded ends_padded is_padding var
reference lookup secret name = elim (lookup name) [
  | ok value ↦
      if all is_padding value
      then err (var secret name ++ is_blank)
      else if starts_padded value || ends_padded value
      then err (var secret name ++ is_padded)
      else ok value
  | err not_present ↦ err (var secret name ++ is_not_set)
  | err (not_unicode raw) ↦ err (var secret name ++ is_not_unicode)
]

-- How a pass of the loop ends: it continues with more output and a shorter rest, or returns.
pub data Pass : Type 0 where
  proceed : (out rest : Text) → Pass
  finish : Result Text Text → Pass

-- What follows a `${`.
unfoldable pub expand_body : Lookup → Bool → Text → Text → Pass
unfolding split_at is_valid_name reference
expand_body lookup secret out body = elim (split_at b'}' body) [
  | none ↦ finish (err unterminated)
  | some (name, rest) ↦
      if is_valid_name name
      then elim (reference lookup secret name) [
        | err e ↦ finish (err e)
        | ok value ↦ proceed (out ++ value) rest
      ]
      else finish (err invalid_reference)
]

-- What follows a run of `$`, whose length is given.
unfoldable pub expand_run : Lookup → Bool → Text → ℕ → Text → Pass
unfolding strip_brace repeat_dollar expand_body
expand_run lookup secret out run after = elim (strip_brace after) [
  | none ↦ proceed (out ++ repeat_dollar run) after
  | some body ↦
      if run % 2 == 0
      then proceed (out ++ repeat_dollar (run / 2)) after
      else expand_body lookup secret (out ++ repeat_dollar (run / 2)) body
]

-- One pass of the loop. The run of `$` begins with the one that was found.
unfoldable pub expand_pass : Lookup → Bool → Text → Text → Pass
unfolding split_at dollars expand_run
expand_pass lookup secret out rest = elim (split_at b'$' rest) [
  | none ↦ finish (ok (out ++ rest))
  | some (front, back) ↦
      expand_run lookup secret (out ++ front) (suc (dollars back)) (drop (dollars back) back)
]

abbrev pub resume : (Text → Text → Option (Result Text Text)) → Pass → Option (Result Text Text)
resume next (proceed out rest) = next out rest
resume next (finish r) = some r

-- The loop, with a bound on its passes. `none` means that the bound has cut it short.
unfoldable pub expand_loop : Lookup → Bool → ℕ → Text → Text → Option (Result Text Text)
unfolding expand_pass
expand_loop lookup secret zero out rest = none
expand_loop lookup secret (suc n) out rest =
    resume (expand_loop lookup secret n) (expand_pass lookup secret out rest)

-- The result of a loop that ended.
abbrev pub ended : Option (Result Text Text) → Result Text Text
ended none = err []
ended (some r) = r

-- Each pass shortens the rest, so that the bound is not met.
unfoldable pub expand_str : Lookup → Bool → Text → Result Text Text
unfolding expand_loop
expand_str lookup secret s = ended (expand_loop lookup secret (suc (length s)) [] s)
