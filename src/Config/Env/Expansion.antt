-- ===== src/Config/Env/Expansion.antt =====
-- The loop of `expand_str` (proxy/src/config/env.rs) shortens the rest of the string on each pass.
use den_browser.Prelude.{
  ◌∙◌, sym, ℕ, zero, suc, ◌/◌, ◌%◌, ◌≤◌, ◌<◌, ◌≡◌, refl, ap, Bool, [], ◌∷◌, ◌++◌, Option, none,
  some, Text, ◌==◌, eq_iff, nat_eq, drop, length, arith, length-append, Bool-cases, Option-cases,
  ◌⊎◌, inl, inr,
}
use den_browser.Prelude.Result.{Result, Result-cases}
use den_browser.Config.Env.{
  Lookup, is_valid_name, split_at, extend_front, dollars, repeat_dollar, strip_brace, reference,
  Pass, proceed, finish, expand_body, expand_run, expand_pass, expand_loop, ended, expand_str,
}

pub extend_front-some :
    (d : ℕ) (later : Option (Text × Text)) (front back : Text)
    → extend_front d later ≡ some (front, back)
    → (f : Text) × (later ≡ some (f, back)) × (front ≡ d ∷ f)
extend_front-some d none front back h = cc
extend_front-some d (some (f, b)) front back h = (f, cc, cc)

pub split_at-some :
    (c : ℕ) (t front back : Text) → split_at c t ≡ some (front, back) → t ≡ front ++ c ∷ back
unfolding split_at
split_at-some c [] front back h = cc
split_at-some c (d ∷ ds) front back h = elim (Bool-cases (d == c)) [
  | inl same ↦ let e = (eq_iff d c).0 same in ground (arith, e)
  | inr other ↦
      let later = extend_front-some d (split_at c ds) front back (ground arith) in
      rw later.2 (ap (λ t. d ∷ t) (split_at-some c ds later.0 back later.1))
]

length-drop : (n : ℕ) (t : Text) → length (drop n t) ≤ length t
length-drop zero t = omega arith
length-drop (suc n) [] = omega arith
length-drop (suc n) (c ∷ cs) = omega (arith, length-drop n cs)

pub Pass-cases :
    (p : Pass)
    → ((o : Text) × (r : Text) × (p ≡ proceed o r)) ⊎ ((x : Result Text Text) × (p ≡ finish x))
Pass-cases (proceed o r) = inl (o, r, refl)
Pass-cases (finish x) = inr (x, refl)

length-strip_brace : (t body : Text) → strip_brace t ≡ some body → length body ≤ length t
unfolding strip_brace
length-strip_brace [] body h = cc
length-strip_brace (c ∷ cs) body h = elim (Bool-cases (c == b'{')) [
  | inl same ↦ let e : cs ≡ body = ground (arith) in omega (arith, ap length e)
  | inr other ↦ absurd (ground (arith))
]

length-split_at :
    (c : ℕ) (t front back : Text) → split_at c t ≡ some (front, back) → length back < length t
length-split_at c t front back h =
    omega (arith, ap length (split_at-some c t front back h), length-append front (c ∷ back))

module _ (lookup : Lookup) (secret : Bool) where
  expand_body-shrinks :
      (out body o r : Text)
      → expand_body lookup secret out body ≡ proceed o r
      → length r ≤ length body
  unfolding expand_body
  expand_body-shrinks out body o r h = elim (Option-cases (split_at b'}' body)) [
    | inl missing ↦ absurd (ground (arith, missing))
    | inr ((name, rest), found) ↦ elim (Bool-cases (is_valid_name name)) [
      | inl valid ↦ elim (Result-cases (reference lookup secret name)) [
        | inl (value, known) ↦
            let e : rest ≡ r = ground (arith, found, valid, known) in
            omega (arith, ap length e, length-split_at b'}' body name rest found)
        | inr (e, failed) ↦ absurd (ground (arith, found, valid, failed))
      ]
      | inr invalid ↦ absurd (ground (arith, found, invalid))
    ]
  ]

  expand_run-shrinks :
      (out : Text) (run : ℕ) (after o r : Text)
      → expand_run lookup secret out run after ≡ proceed o r
      → length r ≤ length after
  unfolding expand_run
  expand_run-shrinks out run after o r h = elim (Option-cases (strip_brace after)) [
    | inl plain ↦ let e : after ≡ r = ground (arith, plain) in omega (arith, ap length e)
    | inr (body, opened) ↦ elim (Bool-cases (run % 2 == 0)) [
      | inl even ↦ let e : after ≡ r = ground (arith, opened, even) in omega (arith, ap length e)
      | inr odd ↦ omega (
        arith,
        length-strip_brace after body opened,
        expand_body-shrinks (out ++ repeat_dollar (run / 2)) body o r (ground (arith, opened, odd)),
      )
    ]
  ]

  pub expand_pass-shrinks :
      (out rest o r : Text)
      → expand_pass lookup secret out rest ≡ proceed o r
      → length r < length rest
  unfolding expand_pass
  expand_pass-shrinks out rest o r h = elim (Option-cases (split_at b'$' rest)) [
    | inl plain ↦ absurd (ground (arith, plain))
    | inr ((front, back), found) ↦
        let run =
          expand_run-shrinks (out ++ front) (suc (dollars back)) (drop (dollars back) back) o r
            (ground (arith, found)) in
        omega
          (arith, run, length-drop (dollars back) back, length-split_at b'$' rest front back found)
  ]

  -- With a bound above the length of the rest, the loop ends.
  expand_loop-ends :
      (n : ℕ) (out rest : Text)
      → length rest < n
      → (r : Result Text Text) × (expand_loop lookup secret n out rest ≡ some r)
  unfolding expand_loop
  expand_loop-ends zero out rest f = absurd (omega (arith, f))
  expand_loop-ends (suc n) out rest f = elim (Pass-cases (expand_pass lookup secret out rest)) [
    | inl (o, r, next) ↦
        let shorter = expand_pass-shrinks out rest o r next in
        rw next (expand_loop-ends n o r (omega (arith, shorter, f)))
    | inr (x, done) ↦ (x, rw done refl)
  ]

  -- Any two such bounds give the same.
  expand_loop-enough :
      (n m : ℕ) (out rest : Text)
      → length rest < n
      → length rest < m
      → expand_loop lookup secret n out rest ≡ expand_loop lookup secret m out rest
  unfolding expand_loop
  expand_loop-enough zero m out rest f g = absurd (omega (arith, f))
  expand_loop-enough (suc n) zero out rest f g = absurd (omega (arith, g))
  expand_loop-enough (suc n) (suc m) out rest f g =
      elim (Pass-cases (expand_pass lookup secret out rest)) [
        | inl (o, r, next) ↦
            let shorter = expand_pass-shrinks out rest o r next in
            rw next
              (expand_loop-enough n m o r (omega (arith, shorter, f)) (omega (arith, shorter, g)))
        | inr (x, done) ↦ rw done refl
      ]

  -- The loop of `expand_str` ends, after at most one pass more than the string has characters: with
  -- any bound above the length of the string it is not cut short, and its result is that of
  -- `expand_str`.
  pub expand_loop-eq-expand_str :
      (n : ℕ) (s : Text)
      → length s < n
      → expand_loop lookup secret n [] s ≡ some (expand_str lookup secret s)
  unfolding expand_str
  expand_loop-eq-expand_str n s enough =
      let (r, same) = expand_loop-ends (suc (length s)) [] s (omega arith) in
      expand_loop-enough n (suc (length s)) [] s enough (omega arith)
      ∙ same
      ∙ ap (λ o. some (ended o)) (sym same)
