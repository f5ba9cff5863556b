-- ===== src/Prelude/Texts.antt =====
-- Text as the list of its code points (Rust's `char`s), its UTF-8 bytes, and literals.
use Prim.Native.Nat.{ℕ, ◌+◌, ◌/◌, ◌%◌}
use Prim.Native.Char.{code}
use Prim.Native.String.{String}
use mathlib.Core.Path.{◌≡◌, refl}
use mathlib.Core.Bool.{Bool, ◌&&◌, ◌||◌}
use mathlib.Core.Option.{Option, none, some}
use mathlib.Core.List.{List, [], ◌∷◌, ◌++◌, reverse}
use den_browser.Prelude.Tests.{ltb, leb, if◌then◌else◌}
use den_browser.Prelude.Equality.{◌==◌, nat_eq}

abbrev pub Text : Type 0
Text = List ℕ

abbrev pub Bytes : Type 0
Bytes = List ℕ

-- A literal of the source.
unfoldable pub text : String → Text
text String.[] = []
text (String.◌∷◌ c s) = code c ∷ text s

-- `char::encode_utf8`.
unfoldable pub utf8 : ℕ → Bytes
utf8 c =
    if ltb c 0x80
    then c ∷ []
    else if ltb c 0x800
    then (0xc0 + c / 0x40) ∷ (0x80 + c % 0x40) ∷ []
    else if ltb c 0x10000
    then (0xe0 + c / 0x1000) ∷ (0x80 + c / 0x40 % 0x40) ∷ (0x80 + c % 0x40) ∷ []
    else (0xf0 + c / 0x40000)
      ∷ (0x80 + c / 0x1000 % 0x40)
      ∷ (0x80 + c / 0x40 % 0x40)
      ∷ (0x80 + c % 0x40)
      ∷ []

-- `str::as_bytes`.
unfoldable pub as_bytes : Text → Bytes
unfolding utf8
as_bytes [] = []
as_bytes (c ∷ cs) = utf8 c ++ as_bytes cs

-- `char::is_whitespace`: the property White_Space.
unfoldable pub is_whitespace : ℕ → Bool
is_whitespace c =
    leb 0x9 c && leb c 0xd
    || c == 0x20
    || c == 0x85
    || c == 0xa0
    || c == 0x1680
    || leb 0x2000 c && leb c 0x200a
    || c == 0x2028
    || c == 0x2029
    || c == 0x202f
    || c == 0x205f
    || c == 0x3000

unfoldable pub trim_start : Text → Text
trim_start [] = []
trim_start (c ∷ cs) = let later = trim_start cs in if is_whitespace c then later else c ∷ cs

-- `str::trim`.
unfoldable pub trim : Text → Text
unfolding trim_start
trim s = reverse (trim_start (reverse (trim_start s)))

-- `str::to_ascii_lowercase`.
unfoldable pub to_ascii_lowercase : Text → Text
to_ascii_lowercase [] = []
to_ascii_lowercase (c ∷ cs) =
    let rest = to_ascii_lowercase cs in
    if leb b'A' c && leb c b'Z' then (c + 32) ∷ rest else c ∷ rest

-- `str::split(sep).next()`: what comes before the first separator.
unfoldable pub before_first : ℕ → Text → Text
before_first sep [] = []
before_first sep (c ∷ cs) = let rest = before_first sep cs in if c == sep then [] else c ∷ rest

abbrev extend_first : ℕ → List Text → List Text
extend_first c [] = (c ∷ []) ∷ []
extend_first c (t ∷ ts) = (c ∷ t) ∷ ts

-- `str::split(sep)`.
unfoldable pub split : ℕ → Text → List Text
split sep [] = [] ∷ []
split sep (c ∷ cs) = let rest = split sep cs in if c == sep then [] ∷ rest else extend_first c rest

-- `str::rsplit_once(sep)`: around the last separator.
unfoldable pub rsplit_once : ℕ → Text → Option (Text × Text)
rsplit_once sep [] = none
rsplit_once sep (c ∷ cs) = elim (rsplit_once sep cs) [
  | some (front, back) ↦ some (c ∷ front, back)
  | none ↦ if c == sep then some ([], cs) else none
]

-- `parts.join(glue)`.
unfoldable pub join_with : Text → List Text → Text
join_with glue [] = []
join_with glue (t ∷ []) = t
join_with glue (t ∷ u ∷ ts) = t ++ glue ++ join_with glue (u ∷ ts)

trim_cases : (trim (text " \t info ") ≡ text "info") × (trim (text " ") ≡ [])
unfolding trim text is_whitespace
trim_cases = (refl, refl)

rsplit_cases : rsplit_once b':' (text "a:b:80") ≡ some (text "a:b", text "80")
unfolding rsplit_once text
rsplit_cases = refl
