-- ===== src/Config/Env/Substitution.antt =====
-- What `expand_str` (proxy/src/config/env.rs) does with a reference in a text.
use den_browser.Prelude.{
  ℕ, zero, suc, ◌/◌, ◌%◌, ◌≡◌, refl, ap, sym, ◌∙◌, Bool, true, false, ◌||◌, [], ◌∷◌, ◌++◌, Option,
  none, some, Text, ◌==◌, eq_iff, nat_eq, all, drop, length, arith, length-append, Bool-cases,
  Option-cases, inl, inr, and_true,
}
use mathlib.Core.List.{append_assoc, append-nil}
use den_browser.Prelude.Result.{Result, ok, err, Result-cases}
use den_browser.Config.Env.{
  Lookup, is_valid_name, is_name_char, is_ascii_alphabetic, is_padding, starts_padded, ends_padded,
  split_at, extend_front, dollars, repeat_dollar, strip_brace, reference, Pass, proceed, finish,
  expand_body, expand_run, expand_pass, resume, expand_loop, ended, expand_str,
}
use den_browser.Audit.Request.{option_map}
use den_browser.Config.Env.Expansion.{Pass-cases, expand_loop-eq-expand_str}

-- More output in front of a result.
abbrev pub prepend : Text → Result Text Text → Result Text Text
prepend front (ok t) = ok (front ++ t)
prepend front (err e) = err e

abbrev shift : Text → Pass → Pass
shift front (proceed out rest) = proceed (front ++ out) rest
shift front (finish r) = finish (prepend front r)

pub extend_front-none :
    (d : ℕ) (later : Option (Text × Text)) → extend_front d later ≡ none → later ≡ none
extend_front-none d none h = refl
extend_front-none d (some (f, b)) h = cc

pub split_at-append :
    (c : ℕ) (t rest : Text) → split_at c t ≡ none → split_at c (t ++ c ∷ rest) ≡ some (t, rest)
unfolding split_at
split_at-append c [] rest h = let same = (eq_iff c c).1 refl in rw same
split_at-append c (d ∷ ds) rest h = elim (Bool-cases (d == c)) [
  | inl same ↦ absurd (ground (arith, same))
  | inr other ↦
      let none_later : split_at c ds ≡ none =
        extend_front-none d (split_at c ds) (ground (arith, other)) in
      let later = split_at-append c ds rest none_later in rw (other, later)
]

split_at-name : (name : Text) → all is_name_char name ≡ true → split_at b'}' name ≡ none
unfolding split_at all is_name_char is_ascii_alphabetic
split_at-name [] h = refl
split_at-name (c ∷ cs) h =
    let both = and_true (is_name_char c) (all is_name_char cs) h in
    let later = split_at-name cs both.1 in
    elim (Bool-cases (c == b'}')) [
      | inl brace ↦
          let impossible : false ≡ true =
            sym (ap is_name_char ((eq_iff c b'}').0 brace)) ∙ both.0 in
          absurd (ground (arith, impossible))
      | inr other ↦ rw (other, later)
    ]

all-name : (name : Text) → is_valid_name name ≡ true → all is_name_char name ≡ true
unfolding is_valid_name all is_name_char
all-name [] h = refl
all-name (c ∷ cs) h = ground arith

-- `pre${name}post`.
abbrev pub with_reference : Text → Text → Text → Text
with_reference pre name post = pre ++ (b'$' ∷ b'{' ∷ (name ++ (b'}' ∷ post)))

module _ (lookup : Lookup) (secret : Bool) where
  expand_body-shift :
      (front out body : Text)
      → expand_body lookup secret (front ++ out) body
        ≡ shift front (expand_body lookup secret out body)
  unfolding expand_body
  expand_body-shift front out body = elim (Option-cases (split_at b'}' body)) [
    | inl missing ↦ ground (arith, missing)
    | inr ((name, rest), found) ↦ elim (Bool-cases (is_valid_name name)) [
      | inl valid ↦ elim (Result-cases (reference lookup secret name)) [
        | inl (value, known) ↦ ground (arith, found, valid, known, append_assoc front out value)
        | inr (x, failed) ↦ ground (arith, found, valid, failed)
      ]
      | inr invalid ↦ ground (arith, found, invalid)
    ]
  ]

  expand_run-shift :
      (front out : Text) (run : ℕ) (after : Text)
      → expand_run lookup secret (front ++ out) run after
        ≡ shift front (expand_run lookup secret out run after)
  unfolding expand_run
  expand_run-shift front out run after = elim (Option-cases (strip_brace after)) [
    | inl closed ↦ ground (arith, closed, append_assoc front out (repeat_dollar run))
    | inr (body, opened) ↦
        let dollars_out = append_assoc front out (repeat_dollar (run / 2)) in
        elim (Bool-cases (run % 2 == 0)) [
          | inl even ↦ ground (arith, opened, even, dollars_out)
          | inr odd ↦ ground (
            arith,
            opened,
            odd,
            dollars_out,
            expand_body-shift front (out ++ repeat_dollar (run / 2)) body,
          )
        ]
  ]

  expand_pass-shift :
      (front out rest : Text)
      → expand_pass lookup secret (front ++ out) rest
        ≡ shift front (expand_pass lookup secret out rest)
  unfolding expand_pass
  expand_pass-shift front out rest = elim (Option-cases (split_at b'$' rest)) [
    | inl ended ↦ ground (arith, ended, append_assoc front out rest)
    | inr ((before, back), found) ↦ ground (
      arith,
      found,
      append_assoc front out before,
      expand_run-shift front (out ++ before) (suc (dollars back)) (drop (dollars back) back),
    )
  ]

  expand_loop-prepend :
      (n : ℕ) (front out rest : Text)
      → expand_loop lookup secret n (front ++ out) rest
        ≡ option_map (prepend front) (expand_loop lookup secret n out rest)
  unfolding expand_loop
  expand_loop-prepend zero front out rest = refl
  expand_loop-prepend (suc n) front out rest =
      let moved = expand_pass-shift front out rest in
      elim (Pass-cases (expand_pass lookup secret out rest)) [
        | inl (o, r, next) ↦ ground (arith, moved, next, expand_loop-prepend n front o r)
        | inr (x, done) ↦ ground (arith, moved, done)
      ]

  expand_pass-reference :
      (pre name value post : Text)
      → split_at b'$' pre ≡ none
      → is_valid_name name ≡ true
      → reference lookup secret name ≡ ok value
      → expand_pass lookup secret [] (with_reference pre name post) ≡ proceed (pre ++ value) post
  unfolding expand_pass expand_run expand_body dollars strip_brace repeat_dollar
  expand_pass-reference pre name value post plain valid known =
      let found = split_at-append b'$' pre (b'{' ∷ (name ++ (b'}' ∷ post))) plain in
      let closed = split_at-append b'}' name post (split_at-name name (all-name name valid)) in
      ground (arith, found, closed, valid, known, append-nil pre)

  -- A reference to a variable that is set to a value that is neither blank nor padded, after a text
  -- without `$`, is replaced by the value; the value is not expanded again, and the rest of the
  -- string is expanded as it would be alone.
  pub expand_str-reference :
      (pre name value post : Text)
      → split_at b'$' pre ≡ none
      → is_valid_name name ≡ true
      → lookup name ≡ ok value
      → all is_padding value ≡ false
      → (starts_padded value || ends_padded value) ≡ false
      → expand_str lookup secret (with_reference pre name post)
        ≡ prepend (pre ++ value) (expand_str lookup secret post)
  unfolding expand_loop reference
  expand_str-reference pre name value post plain valid known visible unpadded =
      let whole = with_reference pre name post in
      let n = suc (length whole) in
      let inserted : reference lookup secret name ≡ ok value =
        ground (arith, known, visible, unpadded) in
      let pass = expand_pass-reference pre name value post plain valid inserted in
      let run = expand_loop-eq-expand_str lookup secret (suc n) whole (omega arith) in
      let moved = expand_loop-prepend n (pre ++ value) [] post in
      let rest = expand_loop-eq-expand_str lookup secret n post (
        omega (
          arith,
          length-append pre (b'$' ∷ b'{' ∷ (name ++ (b'}' ∷ post))),
          length-append name (b'}' ∷ post),
        )) in
      ap ended (
        sym run
        ∙ ap (resume (expand_loop lookup secret n)) pass
        ∙ ap (λ out. expand_loop lookup secret n out post) (sym (append-nil (pre ++ value)))
        ∙ moved
        ∙ ap (option_map (prepend (pre ++ value))) rest)
