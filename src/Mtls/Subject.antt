-- ===== src/Mtls/Subject.antt =====
-- `ClientCert::matched` of proxy/src/mtls.rs: the name that an allowlist accepts.
use den_browser.Prelude.{
  ◌≡◌, refl, Bool, true, false, List, [], ◌∷◌, Option, none, some, Text, find, contains, eq_iff,
  list_eq, nat_eq, arith,
}
use den_browser.Mtls.{ClientCert, matched}

-- Every name that the certificate gives its holder, the Common Name first.
abbrev pub names : ClientCert → List Text
names cert = elim cert.common_name [ none ↦ cert.san_dns | some cn ↦ cn ∷ cert.san_dns ]

pub find-found :
    (p : Text → Bool) (xs : List Text) (x : Text)
    → find p xs ≡ some x
    → (p x ≡ true) × (contains x xs ≡ true)
unfolding find contains
find-found p [] x h = cc
find-found p (y ∷ ys) x h = ground (arith, find-found p ys x, eq_iff y x)

pub find-none :
    (p : Text → Bool) (xs : List Text) (x : Text)
    → find p xs ≡ none
    → contains x xs ≡ true
    → p x ≡ false
unfolding find contains
find-none p [] x h k = cc
find-none p (y ∷ ys) x h k = ground (arith, find-none p ys x, eq_iff y x)

matched-find_on :
    (dn : Text) (cn : Option Text) (sans allowed : List Text)
    → let cert : ClientCert = record { subject_dn = dn; common_name = cn; san_dns = sans } in
      matched cert allowed ≡ find (λ n. contains n allowed) (names cert)
unfolding matched find
matched-find_on dn none sans allowed = refl
matched-find_on dn (some cn) sans allowed = ground arith

-- `matched` picks the first of the certificate's names that the allowlist holds, the Common Name
-- before the DNS names.
pub matched-find :
    (cert : ClientCert) (allowed : List Text)
    → matched cert allowed ≡ find (λ n. contains n allowed) (names cert)
matched-find cert allowed = matched-find_on cert.subject_dn cert.common_name cert.san_dns allowed
