-- ===== src/Config/Env/Suffix.antt =====
-- What a pass of `expand_str` (proxy/src/config/env.rs) leaves is the end of what it was handed.
use den_browser.Prelude.{
  ℕ, zero, suc, ◌/◌, ◌%◌, ◌≡◌, refl, ap, sym, ◌∙◌, Bool, [], ◌∷◌, ◌++◌, Text, ◌==◌, eq_iff, nat_eq,
  drop, arith, Bool-cases, Option-cases, some, inl, inr,
}
use mathlib.Core.List.{append_assoc}
use den_browser.Prelude.Result.{Result-cases}
use den_browser.Config.Env.{
  Lookup, is_valid_name, split_at, dollars, repeat_dollar, strip_brace, reference, proceed,
  expand_body, expand_run, expand_pass,
}
use den_browser.Config.Env.Expansion.{split_at-some}

abbrev pub IsSuffix : Text → Text → Type 0
IsSuffix t r = (pre : Text) × (t ≡ pre ++ r)

IsSuffix-trans : (t r q : Text) → IsSuffix t r → IsSuffix r q → IsSuffix t q
IsSuffix-trans t r q (pre, e) (mid, f) =
    (pre ++ mid, e ∙ ap (pre ++◌) f ∙ sym (append_assoc pre mid q))

behind : (front : Text) (c : ℕ) (back : Text) → IsSuffix (front ++ c ∷ back) back
behind front c back = (front ++ c ∷ [], sym (append_assoc front (c ∷ []) back))

drop-IsSuffix : (n : ℕ) (t : Text) → IsSuffix t (drop n t)
drop-IsSuffix zero t = ([], refl)
drop-IsSuffix (suc n) [] = ([], refl)
drop-IsSuffix (suc n) (c ∷ cs) = let (pre, e) = drop-IsSuffix n cs in (c ∷ pre, ap (λ t. c ∷ t) e)

split_at-IsSuffix :
    (c : ℕ) (t front back : Text) → split_at c t ≡ some (front, back) → IsSuffix t back
split_at-IsSuffix c t front back h =
    let (pre, e) = behind front c back in (pre, split_at-some c t front back h ∙ e)

strip_brace-some : (t body : Text) → strip_brace t ≡ some body → t ≡ b'{' ∷ body
unfolding strip_brace
strip_brace-some [] body h = cc
strip_brace-some (c ∷ cs) body h = elim (Bool-cases (c == b'{')) [
  | inl same ↦
      let e : cs ≡ body = ground arith in let f : c ≡ b'{' = (eq_iff c b'{').0 same in cc (e, f)
  | inr other ↦ absurd (ground arith)
]

-- The run of `$` and what is behind it.
dollars-drop : (t : Text) → t ≡ repeat_dollar (dollars t) ++ drop (dollars t) t
unfolding dollars repeat_dollar
dollars-drop [] = refl
dollars-drop (c ∷ cs) = elim (Bool-cases (c == b'$')) [
  | inl same ↦
      let e : c ≡ b'$' = (eq_iff c b'$').0 same in
      rw same (rw e (ap (λ t. b'$' ∷ t) (dollars-drop cs)))
  | inr other ↦ rw other refl
]

-- A run of `$` begins or ends with any of its own.
repeat_dollar_comm :
    (n : ℕ) (t : Text) → b'$' ∷ (repeat_dollar n ++ t) ≡ repeat_dollar n ++ b'$' ∷ t
unfolding repeat_dollar
repeat_dollar_comm zero t = refl
repeat_dollar_comm (suc n) t = ap (λ u. b'$' ∷ u) (repeat_dollar_comm n t)

-- Where the reference stands that a pass has come to.
pub opened_at :
    (rest front back body : Text)
    → split_at b'$' rest ≡ some (front, back)
    → strip_brace (drop (dollars back) back) ≡ some body
    → rest ≡ (front ++ repeat_dollar (dollars back)) ++ (b'$' ∷ b'{' ∷ body)
opened_at rest front back body found opened =
    let n = dollars back in
    let run : back ≡ repeat_dollar n ++ b'{' ∷ body =
      dollars-drop back ∙ ap (repeat_dollar n ++◌) (strip_brace-some (drop n back) body opened) in
    split_at-some b'$' rest front back found
    ∙ ap (λ t. front ++ b'$' ∷ t) run
    ∙ ap (front ++◌) (repeat_dollar_comm n (b'{' ∷ body))
    ∙ sym (append_assoc front (repeat_dollar n) (b'$' ∷ b'{' ∷ body))

module _ (lookup : Lookup) (secret : Bool) where
  expand_body-IsSuffix :
      (out body o r : Text) → expand_body lookup secret out body ≡ proceed o r → IsSuffix body r
  unfolding expand_body
  expand_body-IsSuffix out body o r h = elim (Option-cases (split_at b'}' body)) [
    | inl missing ↦ absurd (ground (arith, missing))
    | inr ((name, rest), found) ↦ elim (Bool-cases (is_valid_name name)) [
      | inl valid ↦ elim (Result-cases (reference lookup secret name)) [
        | inl (value, known) ↦
            let e : rest ≡ r = ground (arith, found, valid, known) in
            rw (← e) (split_at-IsSuffix b'}' body name rest found)
        | inr (e, failed) ↦ absurd (ground (arith, found, valid, failed))
      ]
      | inr invalid ↦ absurd (ground (arith, found, invalid))
    ]
  ]

  expand_run-IsSuffix :
      (out : Text) (run : ℕ) (after o r : Text)
      → expand_run lookup secret out run after ≡ proceed o r
      → IsSuffix after r
  unfolding expand_run
  expand_run-IsSuffix out run after o r h = elim (Option-cases (strip_brace after)) [
    | inl plain ↦ let e : after ≡ r = ground (arith, plain) in ([], e)
    | inr (body, opened) ↦ elim (Bool-cases (run % 2 == 0)) [
      | inl even ↦ let e : after ≡ r = ground (arith, opened, even) in ([], e)
      | inr odd ↦
          IsSuffix-trans after body r (b'{' ∷ [], strip_brace-some after body opened)
            (expand_body-IsSuffix (out ++ repeat_dollar (run / 2)) body o r
              (ground (arith, opened, odd)))
    ]
  ]

  pub expand_pass-IsSuffix :
      (out rest o r : Text) → expand_pass lookup secret out rest ≡ proceed o r → IsSuffix rest r
  unfolding expand_pass
  expand_pass-IsSuffix out rest o r h = elim (Option-cases (split_at b'$' rest)) [
    | inl plain ↦ absurd (ground (arith, plain))
    | inr ((front, back), found) ↦
        let after = drop (dollars back) back in
        IsSuffix-trans rest back r (split_at-IsSuffix b'$' rest front back found) (
          IsSuffix-trans back after r (drop-IsSuffix (dollars back) back) (
            expand_run-IsSuffix (out ++ front) (suc (dollars back)) after o r
              (ground (arith, found))))
  ]
