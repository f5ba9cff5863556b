-- ===== src/Config/Env/Escape/Passes.antt =====
-- The passes of `expand_str` (proxy/src/config/env.rs) over text with escapes.
use den_browser.Prelude.{
  ℕ, zero, suc, ◌+◌, ◌<◌, ◌/◌, ◌%◌, ◌≡◌, refl, ap, sym, ◌∙◌, Bool, true, false, [], ◌∷◌, ◌++◌, some,
  Text, ◌==◌, eq_iff, nat_eq, drop, length, arith, Bool-cases, Option-cases, inl, inr,
}
use mathlib.Core.List.{append_assoc}
use den_browser.Prelude.Result.{ok}
use den_browser.Config.Env.{
  Lookup, split_at, dollars, repeat_dollar, proceed, expand_run, expand_pass, resume, expand_loop,
  ended, expand_str,
}
use den_browser.Config.Env.Expansion.{split_at-some, expand_pass-shrinks, expand_loop-eq-expand_str}
use den_browser.Config.Env.Substitution.{split_at-append}
use den_browser.Config.Env.Escape.{
  after, dollars-repeat, doubled, doubled-pred, drop-repeat, escape, escape-IsRun, escape-front,
  escape-none, repeat_dollar-suc, starts_brace, starts_dollar, starts_dollar-after,
  starts_dollar-escape, strip_brace-escape_closed, strip_brace-escape_open,
}

repeat_dollar-drop : (t : Text) → repeat_dollar (dollars t) ++ drop (dollars t) t ≡ t
unfolding repeat_dollar dollars
repeat_dollar-drop [] = refl
repeat_dollar-drop (c ∷ cs) = elim (Bool-cases (c == b'$')) [
  | inl same ↦
      let e = (eq_iff c b'$').0 same in rw (same, e) (ap (λ t. b'$' ∷ t) (repeat_dollar-drop cs))
  | inr other ↦ rw other
]

-- What a pass writes of a run of `$` that it keeps, with what follows, is the text.
joined_pass :
    (out rest front back : Text)
    → split_at b'$' rest ≡ some (front, back)
    → ((out ++ front) ++ repeat_dollar (suc (dollars back))) ++ drop (dollars back) back
      ≡ out ++ rest
unfolding repeat_dollar
joined_pass out rest front back found =
    append_assoc (out ++ front) (repeat_dollar (suc (dollars back))) (drop (dollars back) back)
    ∙ ap (λ t. (out ++ front) ++ b'$' ∷ t) (repeat_dollar-drop back)
    ∙ append_assoc out front (b'$' ∷ back)
    ∙ ap (λ t. out ++ t) (sym (split_at-some b'$' rest front back found))

module _ (lookup : Lookup) (secret : Bool) where
  expand_run-escape :
      (out u : Text) (n : ℕ)
      → starts_dollar u ≡ false
      → expand_run lookup secret out (doubled (starts_brace u) n) (escape u)
        ≡ proceed (out ++ repeat_dollar n) (escape u)
  unfolding expand_run
  expand_run-escape out u n h = elim (Bool-cases (starts_brace u)) [
    | inr closed ↦ rw closed (ground (arith, strip_brace-escape_closed u h closed))
    | inl open_ ↦
        let (body, stripped) = strip_brace-escape_open u open_ in
        let even : ((n + n) % 2 == 0) ≡ true = ground arith in
        let half : (n + n) / 2 ≡ n = omega arith in rw open_ (ground (arith, stripped, even, half))
  ]

  -- A pass writes the text up to the end of its run, without the escapes, whether or not there are
  -- any, and goes on with what follows.
  expand_pass-escape :
      (out t front back : Text)
      → split_at b'$' t ≡ some (front, back)
      → expand_pass lookup secret out (escape t)
        ≡ proceed ((out ++ front) ++ repeat_dollar (suc (dollars back))) (escape (after back))
  unfolding expand_pass
  expand_pass-escape out t front back found =
      let (plain, begins) = escape-front t front back found in
      let u = after back in
      let rest = escape u in
      let closed = starts_dollar-after back in
      let (p, size) = doubled-pred (starts_brace u) (dollars back) in
      let run = repeat_dollar p ++ rest in
      let whole : escape t ≡ front ++ (b'$' ∷ run) =
        begins
        ∙ ap (λ x. front ++ x)
            (escape-IsRun back
              ∙ ap (λ m. repeat_dollar m ++ rest) size
              ∙ repeat_dollar-suc p rest) in
      let cut = split_at-append b'$' front run plain in
      let counted = dollars-repeat p rest (starts_dollar-escape u closed) in
      let dropped = ap (λ k. drop k run) counted ∙ drop-repeat p rest in
      let last = expand_run-escape (out ++ front) u (suc (dollars back)) closed in
      ap (expand_pass lookup secret out) whole ∙ ground (arith, cut, counted, dropped, last, size)

  expand_loop-escape :
      (n : ℕ) (out t : Text)
      → length (escape t) < n
      → expand_loop lookup secret n out (escape t) ≡ some (ok (out ++ t))
  unfolding expand_loop expand_pass
  expand_loop-escape zero out t h = absurd (omega (arith, h))
  expand_loop-escape (suc n) out t h = elim (Option-cases (split_at b'$' t)) [
    | inl ended ↦
        ap (λ s. expand_loop lookup secret (suc n) out s) (escape-none t ended)
        ∙ ground (arith, ended)
    | inr ((front, back), found) ↦
        let written = (out ++ front) ++ repeat_dollar (suc (dollars back)) in
        let pass = expand_pass-escape out t front back found in
        let shorter = expand_pass-shrinks lookup secret out (escape t) written _ pass in
        ap (resume (expand_loop lookup secret n)) pass
        ∙ expand_loop-escape n written (after back) (omega (arith, shorter, h))
        ∙ ap (λ x. some (ok x)) (joined_pass out t front back found)
  ]

  -- Every text can be written in the configuration: with each `$` of a run before `{` written twice,
  -- `expand_str` gives back the text, whatever the environment.
  pub expand_str-escape : (t : Text) → expand_str lookup secret (escape t) ≡ ok t
  expand_str-escape t = ap ended (
      sym
        (expand_loop-eq-expand_str lookup secret (suc (length (escape t))) (escape t) (omega arith))
      ∙ expand_loop-escape (suc (length (escape t))) [] t (omega arith))
