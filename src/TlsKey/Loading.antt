-- ===== src/TlsKey/Loading.antt =====
-- Where `load` of proxy/src/tls_key.rs takes the passphrase from, and what it returns.
use den_browser.Prelude.{
  ℕ, ◌≡◌, refl, ap, ◌∙◌, sym, ◌≢◌, Bool, true, false, not, ◌&&◌, ◌||◌, [], ◌∷◌, ◌++◌, Option, none,
  some, Text, Bytes, before_first, length, ◌==◌, eq_iff, eq_refl, ne-beq, length-append, list_eq,
  nat_eq, contains, if◌then◌else◌, arith, inl, inr,
}
use mathlib.Core.List.{append_assoc, append-nil}
use den_browser.Prelude.Result.{Result, ok, err, Result-cases}
use den_browser.Config.{ProxyConfig}
use den_browser.TlsKey.{
  Read, OpenSsl, strip_cr, first_line, passphrase, supply, LoadedKey, is_some, judge, load,
}

strip_cr-append :
    (v : Bytes) (b : ℕ) → strip_cr (v ++ (b ∷ [])) ≡ (if b == 13 then v else v ++ (b ∷ []))
unfolding strip_cr
strip_cr-append [] b = refl
strip_cr-append (x ∷ []) b = ground arith
strip_cr-append (x ∷ y ∷ ys) b = ground (arith, strip_cr-append (y ∷ ys) b)

before_first-append :
    (sep : ℕ) (w rest : Bytes) → contains sep w ≡ false → before_first sep (w ++ (sep ∷ rest)) ≡ w
unfolding before_first contains
before_first-append sep [] rest h = rw (eq_refl sep)
before_first-append sep (c ∷ cs) rest h = ground (arith, before_first-append sep cs rest)

before_first_self : (sep : ℕ) (w : Bytes) → contains sep w ≡ false → before_first sep w ≡ w
unfolding before_first contains
before_first_self sep [] h = refl
before_first_self sep (c ∷ cs) h = ground (arith, before_first_self sep cs)

contains-append :
    (sep : ℕ) (xs ys : Bytes) → contains sep (xs ++ ys) ≡ (contains sep xs || contains sep ys)
unfolding contains
contains-append sep [] ys = refl
contains-append sep (x ∷ xs) ys = ground (arith, contains-append sep xs ys)

-- How a file may go on after its first line.
pub data Ending : Bytes → Type 0 where
  at_once : Ending []
  unix : (rest : Bytes) → Ending (10 ∷ rest)
  windows : (rest : Bytes) → Ending (13 ∷ 10 ∷ rest)

-- A line of one byte at least, that holds no line feed and does not end in a carriage return.
pub record IsLine (w : Bytes) : Type 0 where
  pub front : Bytes
  pub last : ℕ
  pub whole : w ≡ front ++ (last ∷ [])
  pub visible : (last == 13) ≡ false
  pub single : contains 10 w ≡ false

IsLine-ne-nil : (w : Bytes) → IsLine w → w ≢ []
IsLine-ne-nil w l e =
    absurd (omega (arith, ap length (sym e ∙ l.whole), length-append l.front (l.last ∷ [])))

strip_cr-line : (w : Bytes) → IsLine w → strip_cr w ≡ w
strip_cr-line w l =
    ap strip_cr l.whole
    ∙ strip_cr-append l.front l.last
    ∙ ap (λ (b : Bool). if b then l.front else l.front ++ (l.last ∷ [])) l.visible
    ∙ sym l.whole

first_line-written : (w rest : Bytes) → IsLine w → Ending rest → first_line (w ++ rest) ≡ w
unfolding first_line contains
first_line-written w _ l at_once =
    ap (λ t. strip_cr (before_first 10 t)) (append-nil w)
    ∙ ap strip_cr (before_first_self 10 w l.single)
    ∙ strip_cr-line w l
first_line-written w _ l (unix rest) =
    ap strip_cr (before_first-append 10 w rest l.single) ∙ strip_cr-line w l
first_line-written w _ l (windows rest) =
    let lone : contains 10 (w ++ (13 ∷ [])) ≡ false =
      ground (arith, contains-append 10 w (13 ∷ []), l.single) in
    ap (λ t. strip_cr (before_first 10 t)) (sym (append_assoc w (13 ∷ []) (10 ∷ rest)))
    ∙ ap strip_cr (before_first-append 10 (w ++ (13 ∷ [])) rest lone)
    ∙ strip_cr-append w 13

-- If no passphrase is written in the section and the file it names is a line, whether that ends the
-- file or is followed by a Unix or a Windows line end and anything else, then the passphrase is that
-- line.
pub passphrase-written :
    (read : Read) (cfg : ProxyConfig) (line rest : Bytes)
    → cfg.tls_key_passphrase ≡ []
    → cfg.tls_key_passphrase_file ≢ []
    → read cfg.tls_key_passphrase_file ≡ ok (line ++ rest)
    → IsLine line
    → Ending rest
    → passphrase read cfg ≡ ok (some line)
unfolding passphrase
passphrase-written read cfg line rest unset named found l end =
    let written = first_line-written line rest l end in
    let filled =
      ne-beq (λ (e : first_line (line ++ rest) ≡ []). IsLine-ne-nil line l (sym written ∙ e)) in
    ground (arith, (eq_iff cfg.tls_key_passphrase []).1 unset, ne-beq named, found, filled, written)

-- What `load` has done when it returns a key.
pub record IsLoaded (lib : OpenSsl) (read : Read) (cfg : ProxyConfig) (l : LoadedKey lib.PKey)
    : Type 0 where
  pub pem : Bytes
  pub pass : Option Bytes
  pub file : read cfg.tls_key ≡ ok pem
  pub source : passphrase read cfg ≡ ok pass
  pub parsed : (lib.private_key_from_pem_callback pem (supply pass)).key ≡ ok l.key
  pub warned :
      l.warned ≡ (is_some pass && not (lib.private_key_from_pem_callback pem (supply pass)).asked)

judge-eq-ok :
    {K : Type 0} (path : Text) (pass : Option Bytes) (asked : Bool) (r : Result K Text)
    (l : LoadedKey K)
    → judge path pass asked r ≡ ok l
    → (r ≡ ok l.key) × (l.warned ≡ (is_some pass && not asked))
unfolding judge
judge-eq-ok path pass asked (ok key) l h = ground (arith, h)
judge-eq-ok path none true (err e) l h = cc
judge-eq-ok path (some p) true (err e) l h = cc
judge-eq-ok path none false (err e) l h = cc
judge-eq-ok path (some p) false (err e) l h = cc

-- A key that `load` returns is what OpenSSL made of the file, asking for the passphrase of the
-- section, if there is one; a warning is logged exactly if there is one and OpenSSL has not asked.
pub load-IsLoaded :
    (lib : OpenSsl) (read : Read) (cfg : ProxyConfig) (l : LoadedKey lib.PKey)
    → load lib read cfg ≡ ok l
    → IsLoaded lib read cfg l
unfolding load judge
load-IsLoaded lib read cfg l h = elim (Result-cases (read cfg.tls_key)) [
  | inr (e, failed) ↦ absurd (ground (arith, h, failed))
  | inl (pem, file) ↦ elim (Result-cases (passphrase read cfg)) [
    | inr (e, failed) ↦ absurd (ground (arith, h, file, failed))
    | inl (pass, source) ↦
        let parsed = lib.private_key_from_pem_callback pem (supply pass) in
        let judged : judge cfg.tls_key pass parsed.asked parsed.key ≡ ok l =
          ground (arith, h, file, source) in
        let (key, warned) = judge-eq-ok cfg.tls_key pass parsed.asked parsed.key l judged in
        record {
          pem = pem;
          pass = pass;
          file = file;
          source = source;
          parsed = key;
          warned = warned;
        }
  ]
]
