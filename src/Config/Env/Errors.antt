-- ===== src/Config/Env/Errors.antt =====
-- What the errors of `expand_str` (proxy/src/config/env.rs) say.
use den_browser.Prelude.{
  ℕ, zero, suc, ◌/◌, ◌%◌, ◌≡◌, ap, sym, ◌∙◌, Bool, true, false, ◌||◌, List, [], ◌∷◌, ◌++◌, Text,
  ◌==◌, nat_eq, all, drop, length, arith, text, Bool-cases, Option-cases, none, some, ◌⊎◌, inl, inr,
}
use mathlib.Core.List.{append_assoc}
use den_browser.Prelude.Result.{ok, err, Result-cases}
use den_browser.Config.Env.{
  Lookup, not_present, not_unicode, is_valid_name, is_padding, starts_padded, ends_padded, split_at,
  dollars, repeat_dollar, strip_brace, var, unterminated, invalid_reference, is_blank, is_padded,
  is_not_set, is_not_unicode, reference, finish, expand_body, expand_run, expand_pass, expand_loop,
  expand_str,
}
use den_browser.Config.Env.Expansion.{Pass-cases, expand_loop-eq-expand_str}
use den_browser.Config.Env.Suffix.{IsSuffix, expand_pass-IsSuffix, opened_at}

-- What went wrong with a variable, and the text that says so.
abbrev pub IsFault : Lookup → Bool → Text → Text → Type 0
IsFault lookup secret name e =
    ((value : Text) × (lookup name ≡ ok value)
      × (((all is_padding value ≡ true) × (e ≡ var secret name ++ is_blank))
          ⊎ (((starts_padded value || ends_padded value) ≡ true)
              × (e ≡ var secret name ++ is_padded))))
    ⊎ (((lookup name ≡ err not_present) × (e ≡ var secret name ++ is_not_set))
        ⊎ ((raw : List ℕ) × (lookup name ≡ err (not_unicode raw))
            × (e ≡ var secret name ++ is_not_unicode)))

-- What is wrong with a reference, given the text behind its `${`: no brace closes it, or the name
-- up to the first brace is no name, or the variable of that name is at fault.
abbrev pub IsBroken : Lookup → Bool → Text → Text → Type 0
IsBroken lookup secret body e =
    ((split_at b'}' body ≡ none) × (e ≡ unterminated))
    ⊎ ((name : Text) × (rest : Text) × (split_at b'}' body ≡ some (name, rest))
        × (((is_valid_name name ≡ false) × (e ≡ invalid_reference))
            ⊎ ((is_valid_name name ≡ true) × IsFault lookup secret name e)))

-- The error of a string is about a reference that stands in it.
abbrev pub IsExplained : Lookup → Bool → Text → Text → Type 0
IsExplained lookup secret s e =
    (lead : Text) × (body : Text) × (s ≡ lead ++ (b'$' ∷ b'{' ∷ body))
    × IsBroken lookup secret body e

module _ (lookup : Lookup) (secret : Bool) where
  reference-err :
      (name e : Text) → reference lookup secret name ≡ err e → IsFault lookup secret name e
  unfolding reference
  reference-err name e h = elim (Result-cases (lookup name)) [
    | inl (value, known) ↦ elim (Bool-cases (all is_padding value)) [
      | inl blank ↦ inl (value, known, inl (blank, ground (arith, known, blank)))
      | inr visible ↦ elim (Bool-cases (starts_padded value || ends_padded value)) [
        | inl padded ↦ inl (value, known, inr (padded, ground (arith, known, visible, padded)))
        | inr plain ↦ absurd (ground (arith, known, visible, plain))
      ]
    ]
    | inr (not_present, missing) ↦ inr (inl (missing, ground (arith, missing)))
    | inr (not_unicode raw, bad) ↦ inr (inr (raw, bad, ground (arith, bad)))
  ]

  expand_body-err :
      (out body e : Text)
      → expand_body lookup secret out body ≡ finish (err e)
      → IsBroken lookup secret body e
  unfolding expand_body
  expand_body-err out body e h = elim (Option-cases (split_at b'}' body)) [
    | inl missing ↦ inl (missing, ground (arith, missing))
    | inr ((name, rest), found) ↦ elim (Bool-cases (is_valid_name name)) [
      | inl valid ↦ elim (Result-cases (reference lookup secret name)) [
        | inl (value, known) ↦ absurd (ground (arith, found, valid, known))
        | inr (x, failed) ↦
            let same : x ≡ e = ground (arith, found, valid, failed) in
            inr (name, rest, found, inr (valid, reference-err name e (failed ∙ ap err same)))
      ]
      | inr invalid ↦ inr (name, rest, found, inl (invalid, ground (arith, found, invalid)))
    ]
  ]

  expand_pass-err :
      (out rest e : Text)
      → expand_pass lookup secret out rest ≡ finish (err e)
      → IsExplained lookup secret rest e
  unfolding expand_pass expand_run
  expand_pass-err out rest e h = elim (Option-cases (split_at b'$' rest)) [
    | inl plain ↦ absurd (ground (arith, plain))
    | inr ((front, back), found) ↦ elim (Option-cases (strip_brace (drop (dollars back) back))) [
      | inl closed ↦ absurd (ground (arith, found, closed))
      | inr (body, opened) ↦ elim (Bool-cases (suc (dollars back) % 2 == 0)) [
        | inl even ↦ absurd (ground (arith, found, opened, even))
        | inr odd ↦ (
          front ++ repeat_dollar (dollars back),
          body,
          opened_at rest front back body found opened,
          expand_body-err ((out ++ front) ++ repeat_dollar (suc (dollars back) / 2)) body e
              (ground (arith, found, opened, odd)),
        )
      ]
    ]
  ]

  IsExplained-behind :
      (t r e : Text) → IsSuffix t r → IsExplained lookup secret r e → IsExplained lookup secret t e
  IsExplained-behind t r e (pre, split) (lead, body, at, why) = (
    pre ++ lead,
    body,
    split ∙ ap (pre ++◌) at ∙ sym (append_assoc pre lead (b'$' ∷ b'{' ∷ body)),
    why,
  )

  expand_loop-err :
      (n : ℕ) (out rest e : Text)
      → expand_loop lookup secret n out rest ≡ some (err e)
      → IsExplained lookup secret rest e
  unfolding expand_loop
  expand_loop-err zero out rest e h = absurd cc
  expand_loop-err (suc n) out rest e h = elim (Pass-cases (expand_pass lookup secret out rest)) [
    | inl (o, r, next) ↦
        IsExplained-behind rest r e (expand_pass-IsSuffix lookup secret out rest o r next)
          (expand_loop-err n o r e (ground (arith, next)))
    | inr (x, done) ↦
        let same : x ≡ err e = ground (arith, done) in
        expand_pass-err out rest e (done ∙ ap finish same)
  ]

  -- An error of `expand_str` is about a `${` that stands in the string, and its text says what is
  -- wrong there: no brace closes the reference; or what stands before the first closing brace is not
  -- a valid name; or it is the name of a variable that is unset, not Unicode, empty or blank, or
  -- padded.
  pub expand_str-IsExplained :
      (s e : Text) → expand_str lookup secret s ≡ err e → IsExplained lookup secret s e
  expand_str-IsExplained s e h =
      expand_loop-err (suc (length s)) [] s e
        (expand_loop-eq-expand_str lookup secret (suc (length s)) s (omega arith) ∙ ap some h)

-- The six errors of a secret setting.
abbrev pub IsWithheld : Text → Type 0
IsWithheld e =
    let named = text "a referenced environment variable" in
    (e ≡ unterminated)
    ⊎ ((e ≡ invalid_reference)
        ⊎ ((e ≡ named ++ is_blank)
            ⊎ ((e ≡ named ++ is_padded)
                ⊎ ((e ≡ named ++ is_not_set) ⊎ (e ≡ named ++ is_not_unicode)))))

fault-IsWithheld : (lookup : Lookup) (name e : Text) → IsFault lookup true name e → IsWithheld e
unfolding var
fault-IsWithheld lookup name e (inl (value, known, inl (blank, says))) = inr (inr (inl says))
fault-IsWithheld lookup name e (inl (value, known, inr (padded, says))) = inr (inr (inr (inl says)))
fault-IsWithheld lookup name e (inr (inl (missing, says))) = inr (inr (inr (inr (inl says))))
fault-IsWithheld lookup name e (inr (inr (raw, bad, says))) = inr (inr (inr (inr (inr says))))

broken-IsWithheld : (lookup : Lookup) (body e : Text) → IsBroken lookup true body e → IsWithheld e
broken-IsWithheld lookup body e (inl (missing, says)) = inl says
broken-IsWithheld lookup body e (inr (name, rest, found, inl (invalid, says))) = inr (inl says)
broken-IsWithheld lookup body e (inr (name, rest, found, inr (valid, fault))) =
    fault-IsWithheld lookup name e fault

-- In a secret setting, an error is one of six fixed texts: neither the setting nor the environment
-- can show in it.
pub expand_str-IsWithheld :
    (lookup : Lookup) (s e : Text) → expand_str lookup true s ≡ err e → IsWithheld e
expand_str-IsWithheld lookup s e h =
    let (lead, body, at, why) = expand_str-IsExplained lookup true s e h in
    broken-IsWithheld lookup body e why
