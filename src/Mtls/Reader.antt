-- ===== src/Mtls/Reader.antt =====
-- A reader of attribute values by RFC 4514, for `escape_dn_value` of proxy/src/mtls.rs.
use den_browser.Prelude.{
  ℕ, ◌+◌, ◌-◌, ◌*◌, ◌/◌, ◌%◌, ◌<◌, ◌≡◌, refl, Bool, not, sym, ap, ◌∙◌, true, false, ◌&&◌, ◌||◌, [],
  ◌∷◌, ◌++◌, Option, none, some, Text, Bytes, utf8, as_bytes, leb, ◌==◌, nat_eq, arith,
  if◌then◌else◌,
}
use mathlib.Core.List.{append_assoc}
use den_browser.Mtls.{is_control, is_special, upper_digit, hex_escape}
use den_browser.Mtls.Escape.{AllBytes}

-- A reader of attribute values by the grammar of RFC 4514, section 3, on bytes, with hex digits in
-- upper case only. `outside` is between characters, `slash` is behind a backslash, `digit v` is
-- behind the first digit of a pair.
pub data Mode : Type 0 where
  outside slash : Mode
  digit : ℕ → Mode

-- What has to be escaped wherever it stands, besides the backslash: `"`, `+`, `,`, `;`, `<`, `>`
-- and NUL.
unfoldable pub is_reserved : ℕ → Bool
is_reserved b = b == 0 || b == 34 || b == 43 || b == 44 || b == 59 || b == 60 || b == 62

-- What a backslash may stand before, besides a hex pair: `special` and the backslash.
unfoldable pub is_escapable : ℕ → Bool
is_escapable b =
    b == 34
    || b == 43
    || b == 44
    || b == 59
    || b == 60
    || b == 62
    || b == 32
    || b == 35
    || b == 61
    || b == 92

unfoldable pub is_nil : Bytes → Bool
is_nil [] = true
is_nil (b ∷ bs) = false

unfoldable pub hex_value : ℕ → Option ℕ
hex_value b =
    if leb b'0' b && leb b b'9'
    then some (b - b'0')
    else if leb b'A' b && leb b b'F'
    then some (b - b'A' + 10)
    else none

unfoldable pub prepend : Bytes → Option Bytes → Option Bytes
prepend bs none = none
prepend bs (some rest) = some (bs ++ rest)

unfoldable pub unescape : Mode → Bytes → Option Bytes
unfolding is_reserved is_escapable
unescape outside [] = some []
unescape slash [] = none
unescape (digit v) [] = none
unescape outside (b ∷ bs) =
    let escaped = unescape slash bs in
    let kept = prepend (b ∷ []) (unescape outside bs) in
    if b == b'\\' then escaped else if is_reserved b || b == b' ' && is_nil bs then none else kept
unescape slash (b ∷ bs) =
    let literal = prepend (b ∷ []) (unescape outside bs) in
    elim (hex_value b) [
      | some v ↦ unescape (digit v) bs
      | none ↦ if is_escapable b then literal else none
    ]
unescape (digit v) (b ∷ bs) = elim (hex_value b) [
  | some w ↦ prepend ((v * 16 + w) ∷ []) (unescape outside bs)
  | none ↦ none
]

-- A value begins with no `#` and no space of its own.
unfoldable pub is_lead : Bytes → Bool
is_lead [] = true
is_lead (b ∷ bs) = not (b == b'#' || b == b' ')

unfoldable pub read_value : Bytes → Option Bytes
unfolding unescape is_lead
read_value bytes = if is_lead bytes then unescape outside bytes else none

prepend-append :
    (xs ys : Bytes) (o : Option Bytes) → prepend (xs ++ ys) o ≡ prepend xs (prepend ys o)
unfolding prepend
prepend-append xs ys none = refl
prepend-append xs ys (some zs) = ap some (append_assoc xs ys zs)

prepend-nil : (o : Option Bytes) → prepend [] o ≡ o
unfolding prepend
prepend-nil none = refl
prepend-nil (some zs) = refl

pub as_bytes-append : (xs ys : Text) → as_bytes (xs ++ ys) ≡ as_bytes xs ++ as_bytes ys
unfolding as_bytes
as_bytes-append [] ys = refl
as_bytes-append (x ∷ xs) ys =
    ap (◌++◌ (utf8 x)) (as_bytes-append xs ys)
    ∙ sym (append_assoc (utf8 x) (as_bytes xs) (as_bytes ys))

pub unescape_kept :
    (b : ℕ) (bs : Bytes)
    → (b == b'\\') ≡ false
    → is_reserved b ≡ false
    → (b == b' ' && is_nil bs) ≡ false
    → unescape outside (b ∷ bs) ≡ prepend (b ∷ []) (unescape outside bs)
unfolding unescape
unescape_kept b bs h r n = rw (h, r, n)

abbrev pub AllKept : Bytes → Type 0
AllKept [] = Unit {0}
AllKept (b ∷ bs) =
    ((b == b'\\') ≡ false) × (is_reserved b ≡ false) × ((b == b' ') ≡ false) × AllKept bs

pub unescape-kept :
    (bs rest : Bytes)
    → AllKept bs
    → unescape outside (bs ++ rest) ≡ prepend bs (unescape outside rest)
unescape-kept [] rest h = sym (prepend-nil (unescape outside rest))
unescape-kept (b ∷ bs) rest (slashless, free, solid, more) =
    unescape_kept b (bs ++ rest) slashless free (rw solid refl)
    ∙ ap (prepend (b ∷ [])) (unescape-kept bs rest more)
    ∙ sym (prepend-append (b ∷ []) bs (unescape outside rest))

pub utf8-AllKept :
    (c : ℕ) → is_special c ≡ false → is_control c ≡ false → (c == b' ') ≡ false → AllKept (utf8 c)
unfolding utf8 is_special is_control is_reserved
utf8-AllKept c s h n = ground arith

pub utf8-ascii : (c : ℕ) → c < 128 → utf8 c ≡ c ∷ []
unfolding utf8
utf8-ascii c h = ground arith

-- `text` reads back as `bytes` before `rest`.
abbrev pub ReadsBefore : Bytes → Text → Bytes → Type 0
ReadsBefore rest t bytes =
    unescape outside (as_bytes t ++ rest) ≡ prepend bytes (unescape outside rest)

-- ... whatever follows.
abbrev pub Reads : Text → Bytes → Type 0
Reads t bytes = (rest : Bytes) → ReadsBefore rest t bytes

unescape_slash : (cs : Bytes) → unescape outside (b'\\' ∷ cs) ≡ unescape slash cs
unfolding unescape
unescape_slash cs = refl

unescape_mark :
    (c : ℕ) (cs : Bytes)
    → hex_value c ≡ none
    → is_escapable c ≡ true
    → unescape slash (c ∷ cs) ≡ prepend (c ∷ []) (unescape outside cs)
unfolding unescape
unescape_mark c cs h e = rw (unescape, h, e)

unescape_digit :
    (d v w : ℕ) (cs : Bytes)
    → hex_value d ≡ some w
    → unescape (digit v) (d ∷ cs) ≡ prepend ((v * 16 + w) ∷ []) (unescape outside cs)
unfolding unescape
unescape_digit d v w cs k = rw (unescape, k)

unescape_high :
    (c v : ℕ) (cs : Bytes) → hex_value c ≡ some v → unescape slash (c ∷ cs) ≡ unescape (digit v) cs
unfolding unescape
unescape_high c v cs h = rw (unescape, h)

unescape_pair :
    (c d v w : ℕ) (cs : Bytes)
    → hex_value c ≡ some v
    → hex_value d ≡ some w
    → unescape slash (c ∷ d ∷ cs) ≡ prepend ((v * 16 + w) ∷ []) (unescape outside cs)
unescape_pair c d v w cs h k = unescape_high c v (d ∷ cs) h ∙ unescape_digit d v w cs k

-- What the escaping writes behind a backslash.
abbrev pub IsMark : ℕ → Type 0
IsMark c = (c < 128) × (hex_value c ≡ none) × (is_escapable c ≡ true)

pub slashed-Reads : (c : ℕ) → IsMark c → Reads (b'\\' ∷ c ∷ []) (c ∷ [])
unfolding as_bytes utf8
slashed-Reads c (ascii, h, e) rest =
    rw (utf8-ascii c ascii) (unescape_slash (c ∷ rest) ∙ unescape_mark c rest h e)

hex_value-upper_digit : (d : ℕ) → d < 16 → hex_value (upper_digit d) ≡ some d
unfolding hex_value upper_digit
hex_value-upper_digit d h = ground arith

upper_digit-ascii : (d : ℕ) → d < 16 → upper_digit d < 128
unfolding upper_digit
upper_digit-ascii d h = ground arith

hex_pair-Reads :
    (b : ℕ) (rest : Bytes)
    → b < 256
    → unescape outside (b'\\' ∷ upper_digit (b / 16) ∷ upper_digit (b % 16) ∷ rest)
      ≡ prepend (b ∷ []) (unescape outside rest)
hex_pair-Reads b rest h =
    let whole : b / 16 * 16 + b % 16 ≡ b = omega arith in
    unescape_slash (upper_digit (b / 16) ∷ upper_digit (b % 16) ∷ rest)
    ∙ unescape_pair (upper_digit (b / 16)) (upper_digit (b % 16)) (b / 16) (b % 16) rest
        (hex_value-upper_digit (b / 16) (omega arith))
        (hex_value-upper_digit (b % 16) (omega arith))
    ∙ ap (λ v. prepend (v ∷ []) (unescape outside rest)) whole

pub hex_escape-Reads : (bs : Bytes) → AllBytes bs → Reads (hex_escape bs) bs
unfolding hex_escape as_bytes utf8
hex_escape-Reads [] h rest = sym (prepend-nil (unescape outside rest))
hex_escape-Reads (b ∷ bs) h rest =
    rw
      (
        utf8-ascii (upper_digit (b / 16)) (upper_digit-ascii (b / 16) (omega arith)),
        utf8-ascii (upper_digit (b % 16)) (upper_digit-ascii (b % 16) (omega arith)),
        hex_pair-Reads b (as_bytes (hex_escape bs) ++ rest) h.0,
        hex_escape-Reads bs h.1 rest,
      )
      (sym (prepend-append (b ∷ []) bs (unescape outside rest)))
