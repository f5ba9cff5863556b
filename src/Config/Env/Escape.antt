-- ===== src/Config/Env/Escape.antt =====
-- Text written with the escape `$$` of proxy/src/config/env.rs, and `expand_str` on it.
pub mod Passes
use den_browser.Prelude.{
  ℕ, zero, suc, ◌+◌, ◌<◌, ◌/◌, ◌%◌, ◌≡◌, refl, ap, sym, ◌∙◌, Bool, true, false, ◌&&◌, [], ◌∷◌, ◌++◌,
  none, some, Text, text, ◌==◌, eq_iff, nat_eq, drop, length, arith, Bool-cases, Option-cases, inl,
  inr, if◌then◌else◌, subst,
}
use mathlib.Core.List.{append_assoc}
use den_browser.Prelude.Result.{ok}
use den_browser.Config.Env.{
  Lookup, split_at, dollars, repeat_dollar, strip_brace, proceed, expand_run, expand_pass, resume,
  expand_loop, expand_str,
}
use den_browser.Config.Env.Expansion.{
  split_at-some, extend_front-some, expand_pass-shrinks, expand_loop-eq-expand_str,
}
use den_browser.Config.Env.Substitution.{split_at-append, extend_front-none}

abbrev pub starts_brace : Text → Bool
starts_brace [] = false
starts_brace (c ∷ cs) = c == b'{'

-- What follows the run of `$` at the start.
abbrev pub after : Text → Text
after t = drop (dollars t) t

-- Every `$` of a run before `{` is written twice.
unfoldable pub escape : Text → Text
unfolding dollars
escape [] = []
escape (c ∷ cs) =
    let rest = escape cs in
    if c == b'$' && starts_brace (after cs) then b'$' ∷ b'$' ∷ rest else c ∷ rest

abbrev pub starts_dollar : Text → Bool
starts_dollar [] = false
starts_dollar (c ∷ cs) = c == b'$'

pub escape-none : (t : Text) → split_at b'$' t ≡ none → escape t ≡ t
unfolding escape split_at
escape-none [] h = refl
escape-none (c ∷ cs) h = elim (Bool-cases (c == b'$')) [
  | inl same ↦ absurd (ground (arith, h, same))
  | inr other ↦
      let none_later : split_at b'$' cs ≡ none =
        extend_front-none c (split_at b'$' cs) (ground (arith, h, other)) in
      let later = escape-none cs none_later in ground (arith, other, later)
]

pub escape-front :
    (t front back : Text)
    → split_at b'$' t ≡ some (front, back)
    → (split_at b'$' front ≡ none) × (escape t ≡ front ++ escape (b'$' ∷ back))
unfolding escape split_at
escape-front [] front back h = cc
escape-front (c ∷ cs) front back h = elim (Bool-cases (c == b'$')) [
  | inl same ↦
      let e = (eq_iff c b'$').0 same in
      let f : front ≡ [] = ground (arith, h, same) in
      let g : cs ≡ back = ground (arith, h, same) in
      (
        rw f refl,
        ap (λ x. escape (x ∷ cs)) e
            ∙ ap (λ b. escape (b'$' ∷ b)) g
            ∙ ap (λ p. p ++ escape (b'$' ∷ back)) (sym f),
      )
  | inr other ↦
      let found = extend_front-some c (split_at b'$' cs) front back (ground (arith, h, other)) in
      let later = escape-front cs found.0 back found.1 in
      let here : escape (c ∷ cs) ≡ c ∷ escape cs = ground (arith, other) in
      (
        rw found.2 (ground (arith, other, later.0)),
        here ∙ ap (λ t. c ∷ t) later.1 ∙ ap (λ p. p ++ escape (b'$' ∷ back)) (sym found.2),
      )
]

-- As many `$` as there were, or twice as many.
abbrev pub doubled : Bool → ℕ → ℕ
doubled true n = n + n
doubled false n = n

pub repeat_dollar-suc :
    (n : ℕ) (t : Text) → repeat_dollar (suc n) ++ t ≡ b'$' ∷ (repeat_dollar n ++ t)
unfolding repeat_dollar
repeat_dollar-suc n t = refl

doubled-suc :
    (twice : Bool) (n : ℕ) (t : Text)
    → repeat_dollar (doubled twice (suc n)) ++ t ≡ (
        if twice
        then b'$' ∷ b'$' ∷ (repeat_dollar (doubled twice n) ++ t)
        else b'$' ∷ (repeat_dollar (doubled twice n) ++ t))
unfolding repeat_dollar
doubled-suc false n t = refl
doubled-suc true n t =
    let more : suc n + suc n ≡ suc (suc (n + n)) = omega arith in
    ap (λ m. repeat_dollar m ++ t) more

-- What the run at the start and the rest are written as.
abbrev IsRun : Text → Type 0
IsRun back =
    escape (b'$' ∷ back)
    ≡ repeat_dollar (doubled (starts_brace (after back)) (suc (dollars back)))
      ++ escape (after back)

escape_last : (back : Text) → dollars back ≡ 0 → IsRun back
unfolding escape repeat_dollar
escape_last back h = elim (Bool-cases (starts_brace back)) [
  | inl open_ ↦ rw (h, open_) refl
  | inr closed ↦ rw (h, closed) refl
]

escape_more : (cs : Text) → IsRun cs → IsRun (b'$' ∷ cs)
unfolding escape dollars
escape_more cs later = elim (Bool-cases (starts_brace (after cs))) [
  | inl open_ ↦ rw open_ (
      ap (λ t. b'$' ∷ b'$' ∷ t) (rw open_ at later)
      ∙ sym (doubled-suc true (suc (dollars cs)) (escape (after cs))))
  | inr closed ↦ rw closed (
      ap (λ t. b'$' ∷ t) (rw closed at later)
      ∙ sym (doubled-suc false (suc (dollars cs)) (escape (after cs))))
]

pub doubled-pred : (twice : Bool) (n : ℕ) → (p : ℕ) × (doubled twice (suc n) ≡ suc p)
doubled-pred true n = (n + suc n, omega arith)
doubled-pred false n = (n, refl)

-- A run at the start is doubled before a brace, and kept otherwise.
pub escape-IsRun : (back : Text) → IsRun back
unfolding dollars
escape-IsRun [] = escape_last [] refl
escape-IsRun (c ∷ cs) = elim (Bool-cases (c == b'$')) [
  | inr other ↦ escape_last (c ∷ cs) (rw other refl)
  | inl same ↦
      let e = (eq_iff c b'$').0 same in
      subst (λ x. IsRun (x ∷ cs)) (sym e) (escape_more cs (escape-IsRun cs))
]

pub dollars-repeat :
    (n : ℕ) (u : Text) → starts_dollar u ≡ false → dollars (repeat_dollar n ++ u) ≡ n
unfolding dollars repeat_dollar
dollars-repeat zero [] h = refl
dollars-repeat zero (c ∷ cs) h = rw h refl
dollars-repeat (suc n) u h = ap suc (dollars-repeat n u h)

pub drop-repeat : (n : ℕ) (u : Text) → drop n (repeat_dollar n ++ u) ≡ u
unfolding repeat_dollar
drop-repeat zero u = refl
drop-repeat (suc n) u = drop-repeat n u

pub starts_dollar-after : (t : Text) → starts_dollar (after t) ≡ false
unfolding dollars
starts_dollar-after [] = refl
starts_dollar-after (c ∷ cs) = elim (Bool-cases (c == b'$')) [
  | inl same ↦ rw same (starts_dollar-after cs)
  | inr other ↦ rw other other
]

pub starts_dollar-escape : (u : Text) → starts_dollar u ≡ false → starts_dollar (escape u) ≡ false
unfolding escape
starts_dollar-escape [] h = refl
starts_dollar-escape (c ∷ cs) h = rw h h

pub strip_brace-escape_open :
    (u : Text) → starts_brace u ≡ true → (body : Text) × (strip_brace (escape u) ≡ some body)
unfolding escape strip_brace
strip_brace-escape_open [] h = absurd (ground (arith, h))
strip_brace-escape_open (c ∷ cs) h = let e = (eq_iff c b'{').0 h in (escape cs, rw e refl)

pub strip_brace-escape_closed :
    (u : Text) → starts_dollar u ≡ false → starts_brace u ≡ false → strip_brace (escape u) ≡ none
unfolding escape strip_brace
strip_brace-escape_closed [] h k = refl
strip_brace-escape_closed (c ∷ cs) h k = rw (h, k) refl
