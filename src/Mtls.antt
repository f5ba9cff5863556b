-- ===== src/Mtls.antt =====
-- proxy/src/mtls.rs: the identity of a client certificate, and its distinguished name as text.
-- What OpenSSL reads out of a certificate is a parameter.
pub mod Escape
pub mod Printed
pub mod Reader
pub mod Unescape
pub mod Subject
use den_browser.Prelude.{
  ℕ, suc, ◌+◌, ◌-◌, ◌/◌, ◌%◌, Bool, true, false, not, ◌&&◌, ◌||◌, List, [], ◌∷◌, ◌++◌, map, Option,
  none, some, Text, Bytes, text, utf8, length, any, find, ltb, leb, ◌==◌, nat_eq, list_eq, contains,
  if◌then◌else◌,
}
use den_browser.Prelude.Result.{Result, ok, err, guard, ◌>>=◌, ◌>>◌, map_err}
use den_browser.Config.{MtlsConfig}
use mathlib.Core.List.{reverse}

-- One entry of a subject name, as far as the code reads it.
pub record NameEntry : Type 0 where
  -- `nid == Nid::COMMONNAME` and `nid != Nid::UNDEF`
  pub is_common_name : Bool
  pub is_known : Bool
  pub short_name : Option Text
  -- `object.to_string()`: the dotted OID
  pub object : Text
  -- `data().as_utf8().ok()` and `String::from_utf8_lossy(data().as_slice())`
  pub as_utf8 : Option Text
  pub lossy : Text

-- What the code reads of an X.509 certificate.
pub record Certificate : Type 0 where
  pub subject_name : List NameEntry
  -- `subject_alt_names()`, and the DNS name of each
  pub subject_alt_names : Option (List (Option Text))

pub record ClientCert : Type 0 where
  pub subject_dn : Text
  pub common_name : Option Text
  pub san_dns : List Text

unfoldable pub matched : ClientCert → List Text → Option Text
matched cert allowed =
    let by_san = find (λ san. contains san allowed) cert.san_dns in
    elim cert.common_name [
      | none ↦ by_san
      | some cn ↦ if contains cn allowed then some cn else by_san
    ]

-- `char::is_control`: the general category Cc.
unfoldable pub is_control : ℕ → Bool
is_control c = ltb c 0x20 || leb 0x7f c && leb c 0x9f

unfoldable pub is_special : ℕ → Bool
is_special c =
    c == b'"' || c == b'+' || c == b',' || c == b';' || c == b'<' || c == b'>' || c == b'\\'

upper_digit : ℕ → ℕ
upper_digit d = if ltb d 10 then b'0' + d else b'A' + (d - 10)

-- `write!(out, "\\{b:02X}")` for each byte.
unfoldable pub hex_escape : Bytes → Text
unfolding upper_digit
hex_escape [] = []
hex_escape (b ∷ bs) = b'\\' ∷ upper_digit (b / 16) ∷ upper_digit (b % 16) ∷ hex_escape bs

unfoldable pub escape_char : ℕ → ℕ → ℕ → Text
escape_char i last c =
    if is_special c
    then b'\\' ∷ c ∷ []
    else if c == b'#' && i == 0
    then b'\\' ∷ b'#' ∷ []
    else if c == b' ' && (i == 0 || i == last)
    then b'\\' ∷ b' ' ∷ []
    else if is_control c
    then hex_escape (utf8 c)
    else c ∷ []

unfoldable pub escape_from : ℕ → ℕ → Text → Text
escape_from i last [] = []
escape_from i last (c ∷ cs) = escape_char i last c ++ escape_from (i + 1) last cs

unfoldable pub escape_dn_value : Text → Text
escape_dn_value value = escape_from 0 (length value - 1) value

unfoldable pub entry_text : NameEntry → Text
entry_text e =
    let key : Text = elim e.short_name [
      | none ↦ e.object
      | some short ↦ if e.is_known then short else e.object
    ] in
    let value : Text = elim e.as_utf8 [ none ↦ e.lossy | some valid ↦ valid ] in
    key ++ (b'=' ∷ escape_dn_value value)

-- The entries after the first, each behind a comma.
unfoldable pub more_entries : List NameEntry → Text
more_entries [] = []
more_entries (e ∷ es) = b',' ∷ (entry_text e ++ more_entries es)

unfoldable pub entries_text : List NameEntry → Text
unfolding more_entries
entries_text [] = []
entries_text (e ∷ es) = entry_text e ++ more_entries es

unfoldable pub distinguished_name : List NameEntry → Text
unfolding entries_text
distinguished_name entries = entries_text (reverse entries)

and_then_utf8 : Option NameEntry → Option Text
and_then_utf8 none = none
and_then_utf8 (some e) = e.as_utf8

dns_names : List (Option Text) → List Text
dns_names [] = []
dns_names (none ∷ names) = dns_names names
dns_names (some name ∷ names) = name ∷ dns_names names

unfoldable pub from_cert : Certificate → ClientCert
unfolding and_then_utf8 dns_names
from_cert cert = record {
  subject_dn = distinguished_name cert.subject_name;
  common_name = and_then_utf8 (find (λ e. e.is_common_name) cert.subject_name);
  san_dns = elim cert.subject_alt_names [ none ↦ [] | some names ↦ dns_names names ];
}

-- `handshake_complete_callback` of `Recorder`: `none` when the peer sent no certificate.
unfoldable pub record_identity : Option Certificate → Option ClientCert
unfolding from_cert
record_identity none = none
record_identity (some cert) = some (from_cert cert)

pub record Mtls : Type 0 where
  pub ca_path : Text
  pub ca_certs : List Certificate

-- The errors of `Mtls::from_config`, and the messages of the file system and of OpenSSL.
pub data ConfigError : Type 0 where
  no_client_ca : ConfigError
  cannot_read : Text → Text → ConfigError
  cannot_parse : Text → Text → ConfigError
  no_certificates : Text → ConfigError

-- The file system and `X509::stack_from_pem` are arguments.
module _ (read : Text → Result Bytes Text)
    (stack_from_pem : Bytes → Result (List Certificate) Text) where
  unfoldable pub from_config : MtlsConfig → Result (Option Mtls) ConfigError
  from_config cfg = if not cfg.enabled then ok none else do
    guard (not (cfg.client_ca == [])) no_client_ca
    pem ← map_err (cannot_read cfg.client_ca) (read cfg.client_ca)
    cas ← map_err (cannot_parse cfg.client_ca) (stack_from_pem pem)
    guard (ltb 0 (length cas)) (no_certificates cfg.client_ca)
    ok (some (record { ca_path = cfg.client_ca; ca_certs = cas }))
