-- ===== src/Mtls/Unescape.antt =====
-- What `escape_dn_value` of proxy/src/mtls.rs writes is an attribute value by RFC 4514, and reads
-- back.
use den_browser.Prelude.{
  ℕ, ◌+◌, ◌-◌, ◌≡◌, refl, eq_iff, ap, ◌∙◌, true, false, ◌&&◌, ◌||◌, [], ◌∷◌, ◌++◌, some, Text,
  Bytes, utf8, as_bytes, length, ◌==◌, nat_eq, arith, Bool-cases, inl, inr,
}
use mathlib.Core.List.{append-nil}
use den_browser.Mtls.{is_control, is_special, hex_escape, escape_char, escape_from, escape_dn_value}
use den_browser.Mtls.Escape.{control_bytes}
use den_browser.Mtls.Reader.{
  outside, is_reserved, is_escapable, is_nil, hex_value, prepend, unescape, is_lead, read_value,
  as_bytes-append, unescape_kept, unescape-kept, utf8-AllKept, utf8-ascii, ReadsBefore, Reads,
  IsMark, slashed-Reads, hex_escape-Reads,
}

special-IsMark : (c : ℕ) → is_special c ≡ true → IsMark c
unfolding is_special hex_value is_escapable
special-IsMark c h = ground arith

hash-IsMark : IsMark b'#'
unfolding hex_value is_escapable
hash-IsMark = (omega arith, refl, refl)

space-IsMark : IsMark b' '
unfolding hex_value is_escapable
space-IsMark = (omega arith, refl, refl)

space_kept : (rest : Bytes) → is_nil rest ≡ false → ReadsBefore rest (b' ' ∷ []) (utf8 b' ')
unfolding as_bytes utf8 is_reserved
space_kept rest more = unescape_kept b' ' rest refl refl more

kept-Reads :
    (c : ℕ)
    → is_special c ≡ false
    → is_control c ≡ false
    → (c == b' ') ≡ false
    → Reads (c ∷ []) (utf8 c)
unfolding as_bytes
kept-Reads c s h n rest = simp append-nil (unescape-kept (utf8 c) rest (utf8-AllKept c s h n))

-- An ASCII mark behind a backslash reads back as its one byte.
mark-Reads : (c : ℕ) → IsMark c → Reads (b'\\' ∷ c ∷ []) (utf8 c)
mark-Reads c mark rest = rw (utf8-ascii c mark.0) (slashed-Reads c mark rest)

-- A space that is kept is not the last character.
escape_char-Reads :
    (i last c : ℕ) (rest : Bytes)
    → ((i == last) ≡ false → is_nil rest ≡ false)
    → ReadsBefore rest (escape_char i last c) (utf8 c)
unfolding escape_char
escape_char-Reads i last c rest inner = elim (Bool-cases (is_special c)) [
  | inl special ↦ rw special (mark-Reads c (special-IsMark c special) rest)
  | inr ordinary ↦ rw ordinary (elim (Bool-cases (c == b'#' && i == 0)) [
    | inl hash ↦
        let e : c ≡ b'#' = ground arith in rw hash (rw e (mark-Reads b'#' hash-IsMark rest))
    | inr not_hash ↦ rw not_hash (elim (Bool-cases (c == b' ' && (i == 0 || i == last))) [
      | inl space ↦
          let e : c ≡ b' ' = ground arith in rw space (rw e (mark-Reads b' ' space-IsMark rest))
      | inr not_space ↦ rw not_space (elim (Bool-cases (is_control c)) [
        | inl control ↦ rw control (hex_escape-Reads (utf8 c) (control_bytes c control) rest)
        | inr visible ↦ rw visible (elim (Bool-cases (c == b' ')) [
          | inl blank ↦
              let e : c ≡ b' ' = (eq_iff c b' ').0 blank in
              let early : (i == last) ≡ false = ground arith in rw e (space_kept rest (inner early))
          | inr solid ↦ kept-Reads c ordinary visible solid rest
        ])
      ])
    ])
  ])
]

-- What reads back as a character is not empty.
follows :
    (rest : Bytes) (d : ℕ) (ds : Text)
    → unescape outside rest ≡ some (as_bytes (d ∷ ds))
    → is_nil rest ≡ false
unfolding as_bytes utf8 unescape is_nil
follows [] d ds h = ground arith
follows (b ∷ bs) d ds h = refl

escape_step :
    (i last c : ℕ) (cs : Text)
    → ((i == last) ≡ false → is_nil (as_bytes (escape_from (i + 1) last cs)) ≡ false)
    → unescape outside (as_bytes (escape_from (i + 1) last cs)) ≡ some (as_bytes cs)
    → unescape outside (as_bytes (escape_from i last (c ∷ cs))) ≡ some (as_bytes (c ∷ cs))
unfolding escape_from
escape_step i last c cs inner later =
    let here = escape_char i last c in
    let there = escape_from (i + 1) last cs in
    let whole : prepend (utf8 c) (some (as_bytes cs)) ≡ some (as_bytes (c ∷ cs)) =
      unfold prepend as_bytes in refl in
    ap (unescape outside) (as_bytes-append here there)
    ∙ escape_char-Reads i last c (as_bytes there) inner
    ∙ ap (prepend (utf8 c)) later
    ∙ whole

no_more : (i last : ℕ) → unescape outside (as_bytes (escape_from i last [])) ≡ some (as_bytes [])
unfolding escape_from as_bytes unescape
no_more i last = refl

escape_from-Reads :
    (i last c : ℕ) (cs : Text)
    → i + length cs ≡ last
    → unescape outside (as_bytes (escape_from i last (c ∷ cs))) ≡ some (as_bytes (c ∷ cs))
escape_from-Reads i last c [] h =
    escape_step i last c [] (λ early. absurd (ground (arith, h))) (no_more (i + 1) last)
escape_from-Reads i last c (d ∷ ds) h =
    let later = escape_from-Reads (i + 1) last d ds (omega (arith, h)) in
    escape_step i last c (d ∷ ds)
      (λ early. follows (as_bytes (escape_from (i + 1) last (d ∷ ds))) d ds later) later

-- The first byte of an escaped value.
utf8-is_lead :
    (c : ℕ) (t : Bytes) → (c == b'#') ≡ false → (c == b' ') ≡ false → is_lead (utf8 c ++ t) ≡ true
unfolding utf8 is_lead
utf8-is_lead c t h k = ground arith

hex_escape-is_lead : (c : ℕ) (t : Bytes) → is_lead (as_bytes (hex_escape (utf8 c)) ++ t) ≡ true
unfolding utf8 is_lead as_bytes hex_escape
hex_escape-is_lead c t = ground arith

mark-is_lead : (c : ℕ) (t : Bytes) → is_lead (as_bytes (b'\\' ∷ c ∷ []) ++ t) ≡ true
unfolding utf8 is_lead as_bytes
mark-is_lead c t = refl

lone-is_lead :
    (c : ℕ) (t : Bytes)
    → (c == b'#') ≡ false
    → (c == b' ') ≡ false
    → is_lead (as_bytes (c ∷ []) ++ t) ≡ true
unfolding as_bytes
lone-is_lead c t h k = simp append-nil (utf8-is_lead c t h k)

escape_char-is_lead :
    (last c : ℕ) (t : Bytes) → is_lead (as_bytes (escape_char 0 last c) ++ t) ≡ true
unfolding escape_char
escape_char-is_lead last c t = elim (Bool-cases (is_special c)) [
  | inl special ↦ rw special (mark-is_lead c t)
  | inr ordinary ↦ rw ordinary (elim (Bool-cases (c == b'#')) [
    | inl hash ↦ rw hash (mark-is_lead b'#' t)
    | inr not_hash ↦ rw not_hash (elim (Bool-cases (c == b' ')) [
      | inl space ↦ rw space (mark-is_lead b' ' t)
      | inr not_space ↦ rw not_space (elim (Bool-cases (is_control c)) [
        | inl control ↦ rw control (hex_escape-is_lead c t)
        | inr visible ↦ rw visible (lone-is_lead c t not_hash not_space)
      ])
    ])
  ])
]

-- The escaped text of any value is an attribute value by the grammar of RFC 4514: no `"`, `+`, `,`,
-- `;`, `<`, `>` or NUL stands in it without a backslash, no `#` or space begins it and no space ends
-- it, and each backslash stands before a hex pair or before a character that may be escaped. Its
-- reading is the value's bytes.
pub read_value-escape_dn_value :
    (value : Text) → read_value (as_bytes (escape_dn_value value)) ≡ some (as_bytes value)
unfolding read_value escape_dn_value escape_from
read_value-escape_dn_value [] = unfold as_bytes in refl
read_value-escape_dn_value (c ∷ cs) =
    let last = length (c ∷ cs) - 1 in
    let lead : is_lead (as_bytes (escape_from 0 last (c ∷ cs))) ≡ true =
      ap is_lead (as_bytes-append (escape_char 0 last c) (escape_from 1 last cs))
      ∙ escape_char-is_lead last c (as_bytes (escape_from 1 last cs)) in
    rw lead (escape_from-Reads 0 last c cs (omega arith))
