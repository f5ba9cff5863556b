-- ===== src/Mtls/Printed.antt =====
-- `distinguished_name` of proxy/src/mtls.rs: what a certificate can put into the text.
use den_browser.Prelude.{
  ℕ, ◌≡◌, refl, Bool, true, false, not, List, [], ◌∷◌, ◌++◌, none, some, Text, all, nat_eq,
  Bool-cases, Option-cases, inl, inr,
}
use mathlib.Core.List.{reverse, reverse-cons}
use den_browser.Mtls.{
  NameEntry, is_control, entry_text, more_entries, entries_text, distinguished_name,
  escape_dn_value,
}
use den_browser.Mtls.Escape.{plain-append, escape_dn_value-plain}

-- The names that OpenSSL gives the kind of an entry hold no control character: a short name of its
-- own table, or the digits and dots of the OID.
abbrev pub IsNamed : NameEntry → Type 0
IsNamed e =
    ((short : Text) → e.short_name ≡ some short → all (λ c. not (is_control c)) short ≡ true)
    × (all (λ c. not (is_control c)) e.object ≡ true)

abbrev pub AllNamed : List NameEntry → Type 0
AllNamed [] = Unit {0}
AllNamed (e ∷ es) = IsNamed e × AllNamed es

AllNamed-append : (es fs : List NameEntry) → AllNamed es → AllNamed fs → AllNamed (es ++ fs)
AllNamed-append [] fs h k = k
AllNamed-append (e ∷ es) fs h k = (h.0, AllNamed-append es fs h.1 k)

reverse-AllNamed : (es : List NameEntry) → AllNamed es → AllNamed (reverse es)
reverse-AllNamed [] h = tt
reverse-AllNamed (e ∷ es) h =
    rw (reverse-cons e es)
      (AllNamed-append (reverse es) (e ∷ []) (reverse-AllNamed es h.1) (h.0, tt))

abbrev plain : Text → Bool
plain t = all (λ c. not (is_control c)) t

plain-cons : (c : ℕ) (t : Text) → is_control c ≡ false → plain t ≡ true → plain (c ∷ t) ≡ true
unfolding all
plain-cons c t h k = rw (h, k)

equals-plain : is_control b'=' ≡ false
unfolding is_control
equals-plain = refl

comma-plain : is_control b',' ≡ false
unfolding is_control
comma-plain = refl

valued-plain :
    (key value : Text) → plain key ≡ true → plain (key ++ (b'=' ∷ escape_dn_value value)) ≡ true
valued-plain key value h =
    plain-append key (b'=' ∷ escape_dn_value value) h
      (plain-cons b'=' (escape_dn_value value) equals-plain (escape_dn_value-plain value))

entry_text-plain : (e : NameEntry) → IsNamed e → plain (entry_text e) ≡ true
unfolding entry_text
entry_text-plain e h =
    let value : Text = elim e.as_utf8 [ none ↦ e.lossy | some valid ↦ valid ] in
    elim (Option-cases e.short_name) [
      | inl unnamed ↦ rw unnamed (valued-plain e.object value h.1)
      | inr (short, named) ↦ rw named (elim (Bool-cases e.is_known) [
        | inl known ↦ rw known (valued-plain short value (h.0 short named))
        | inr unknown ↦ rw unknown (valued-plain e.object value h.1)
      ])
    ]

more_entries-plain : (es : List NameEntry) → AllNamed es → plain (more_entries es) ≡ true
unfolding more_entries
more_entries-plain [] h = unfold all in refl
more_entries-plain (e ∷ es) h = plain-cons b',' (entry_text e ++ more_entries es) comma-plain (
    plain-append (entry_text e) (more_entries es) (entry_text-plain e h.0)
      (more_entries-plain es h.1))

entries_text-plain : (es : List NameEntry) → AllNamed es → plain (entries_text es) ≡ true
unfolding entries_text
entries_text-plain [] h = unfold all in refl
entries_text-plain (e ∷ es) h =
    plain-append (entry_text e) (more_entries es) (entry_text-plain e h.0)
      (more_entries-plain es h.1)

-- No control character reaches a distinguished name, whatever the values of its entries, as long as
-- the short names and OIDs by which OpenSSL names their kinds hold none.
pub distinguished_name-plain :
    (entries : List NameEntry)
    → AllNamed entries
    → all (λ c. not (is_control c)) (distinguished_name entries) ≡ true
unfolding distinguished_name
distinguished_name-plain entries h =
    entries_text-plain (reverse entries) (reverse-AllNamed entries h)
