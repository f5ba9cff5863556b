-- ===== src/Config/Env/Literal.antt =====
-- Strings that `expand_str` of proxy/src/config/env.rs keeps as they are.
use den_browser.Prelude.{
  ◌≡◌, refl, ap, sym, ◌∙◌, Bool, false, ◌&&◌, ◌||◌, [], ◌∷◌, Text, ◌==◌, eq_iff, nat_eq, arith,
  Bool-cases, inl, inr,
}
use den_browser.Prelude.Result.{ok}
use den_browser.Config.Env.{Lookup, dollars, expand_str}
use den_browser.Config.Env.Escape.{starts_brace, after, escape}
use den_browser.Config.Env.Escape.Passes.{expand_str-escape}

-- Does `${` occur in the text?
unfoldable has_open : Text → Bool
has_open [] = false
has_open (c ∷ cs) = (c == b'$' && starts_brace cs) || has_open cs

starts_brace-after : (t : Text) → has_open (b'$' ∷ t) ≡ false → starts_brace (after t) ≡ false
unfolding has_open dollars
starts_brace-after [] h = refl
starts_brace-after (c ∷ cs) h = elim (Bool-cases (c == b'$')) [
  | inl same ↦ let e = (eq_iff c b'$').0 same in rw same (starts_brace-after cs (ground arith))
  | inr other ↦ rw other (ground arith)
]

escape-plain : (t : Text) → has_open t ≡ false → escape t ≡ t
unfolding escape has_open
escape-plain [] h = refl
escape-plain (c ∷ cs) h =
    let later = escape-plain cs (ground arith) in
    elim (Bool-cases (c == b'$')) [
      | inl same ↦
          let e = (eq_iff c b'$').0 same in
          let closed = starts_brace-after cs (rw (ap (λ x. has_open (x ∷ cs)) e) at h) in
          ground (arith, closed, later)
      | inr other ↦ ground (arith, other, later)
    ]

-- A string in which `${` does not occur is left unchanged, whatever the environment.
expand_str-plain :
    (lookup : Lookup) (secret : Bool) (s : Text)
    → has_open s ≡ false
    → expand_str lookup secret s ≡ ok s
expand_str-plain lookup secret s plain =
    ap (expand_str lookup secret) (sym (escape-plain s plain)) ∙ expand_str-escape lookup secret s
