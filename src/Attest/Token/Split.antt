-- ===== src/Attest/Token/Split.antt =====
-- `slice::split` against its inverse, for the plaintext layout of proxy/src/attest.rs.
use den_browser.Prelude.{
  ℕ, ◌≡◌, refl, ap, ◌∙◌, ◌≢◌, false, List, [], ◌∷◌, ◌++◌, Bytes, ◌==◌, eq_iff, arith, contains, All,
  Bool-cases, inl, inr, nat_eq,
}
use den_browser.Attest.Token.{split, cons_first}

-- The parts with the separator between them.
unfoldable pub join : ℕ → List Bytes → Bytes
join sep [] = []
join sep (part ∷ []) = part
join sep (part ∷ next ∷ parts) = part ++ sep ∷ join sep (next ∷ parts)

split-ne-nil : (sep : ℕ) (bs : Bytes) → split sep bs ≢ []
unfolding split
split-ne-nil sep [] = λ e. cc e
split-ne-nil sep (b ∷ bs) = ground (arith, split-ne-nil sep bs)

join-cons_first :
    (sep b : ℕ) (parts : List Bytes)
    → parts ≢ []
    → join sep (cons_first b parts) ≡ b ∷ join sep parts
unfolding join cons_first
join-cons_first sep b [] h = absurd (h refl)
join-cons_first sep b (part ∷ []) h = refl
join-cons_first sep b (part ∷ next ∷ parts) h = refl

join-nil :
    (sep : ℕ) (parts : List Bytes) → parts ≢ [] → join sep ([] ∷ parts) ≡ sep ∷ join sep parts
unfolding join
join-nil sep [] h = absurd (h refl)
join-nil sep (part ∷ parts) h = refl

-- Splitting loses nothing.
pub join-split : (sep : ℕ) (bs : Bytes) → join sep (split sep bs) ≡ bs
unfolding split
join-split sep [] = unfold join in refl
join-split sep (b ∷ bs) = elim (Bool-cases (b == sep)) [
  | inl e ↦ rw e (
      join-nil sep (split sep bs) (split-ne-nil sep bs)
      ∙ cc (join-split sep bs, (eq_iff b sep).0 e))
  | inr e ↦
      rw e (join-cons_first sep b (split sep bs) (split-ne-nil sep bs) ∙ cc (join-split sep bs))
]

split_part : (sep : ℕ) (part : Bytes) → contains sep part ≡ false → split sep part ≡ part ∷ []
unfolding split contains cons_first
split_part sep [] h = refl
split_part sep (b ∷ bs) h = ground (arith, split_part sep bs)

split-append :
    (sep : ℕ) (part rest : Bytes)
    → contains sep part ≡ false
    → split sep (part ++ sep ∷ rest) ≡ part ∷ split sep rest
unfolding split contains cons_first
split-append sep [] rest h = ground (arith, eq_iff sep sep)
split-append sep (b ∷ bs) rest h = ground (arith, split-append sep bs rest)

-- Parts without the separator come back as they were.
pub split-join :
    (sep : ℕ) (part : Bytes) (parts : List Bytes)
    → All (λ p. contains sep p ≡ false) (part ∷ parts)
    → split sep (join sep (part ∷ parts)) ≡ part ∷ parts
unfolding join
split-join sep part [] h = split_part sep part h.0
split-join sep part (next ∷ parts) h =
    split-append sep part (join sep (next ∷ parts)) h.0
    ∙ ap (λ ps. part ∷ ps) (split-join sep next parts h.1)
