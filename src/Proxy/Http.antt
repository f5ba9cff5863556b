-- ===== src/Proxy/Http.antt =====
-- What proxy/src/main.rs reads of a request: pingora's session and header, the host, and the
-- message about headers that are missing.
use den_browser.Prelude.{
  Bool, false, not, ◌&&◌, ◌||◌, List, [], ◌∷◌, ◌++◌, Option, none, some, Text, Bytes, text, all,
  any, leb, ◌==◌, nat_eq, list_eq, before_first, join_with, if◌then◌else◌,
}
use den_browser.Net.{SocketAddr}
use den_browser.Mtls.{ClientCert}

-- Header names are in lower case; a name may have several values.
abbrev pub HeaderMap : Type 0
HeaderMap = List (Text × Bytes)

pub record RequestHeader : Type 0 where
  pub method : Text
  pub headers : HeaderMap
  -- of the URI
  pub authority : Option Text
  pub path_and_query : Option Text

unfoldable pub ts_header : Text
ts_header = text "x-denbrowser-ts"

unfoldable pub nonce_header : Text
nonce_header = text "x-denbrowser-nonce"

unfoldable pub token_header : Text
token_header = text "x-denbrowser-token"

unfoldable pub machine_cert_header : Text
machine_cert_header = text "x-denbrowser-machine-cert"

unfoldable pub attestation_names : List Text
attestation_names = ts_header ∷ nonce_header ∷ token_header ∷ []

-- The first value of a name.
unfoldable pub get : Text → HeaderMap → Option Bytes
get name [] = none
get name ((n, v) ∷ headers) = let later = get name headers in if n == name then some v else later

unfoldable pub contains_key : Text → HeaderMap → Bool
contains_key name [] = false
contains_key name ((n, v) ∷ headers) = n == name || contains_key name headers

-- `HeaderValue::to_str`: visible ASCII, space and tab.
unfoldable pub to_str : Bytes → Option Text
to_str v = if all (λ b. leb 32 b && leb b 126 || b == 9) v then some v else none

unfoldable pub header_str : HeaderMap → Text → Option Text
unfolding to_str
header_str headers name = elim (get name headers) [ none ↦ none | some v ↦ to_str v ]

unfoldable pub remove_header : Text → HeaderMap → HeaderMap
remove_header name [] = []
remove_header name ((n, v) ∷ headers) =
    let rest = remove_header name headers in if n == name then rest else (n, v) ∷ rest

unfoldable pub request_host : RequestHeader → Option Text
request_host req =
    let authority : Option Text = elim (header_str req.headers (text "host")) [
      | some h ↦ some h
      | none ↦ req.authority
    ] in
    elim authority [ none ↦ none | some a ↦ some (before_first b':' a) ]

unfoldable pub path_of : RequestHeader → Text
path_of req = elim req.path_and_query [ none ↦ text "/" | some p ↦ p ]

unfoldable pub unusable : HeaderMap → List Text → List Text
unusable headers [] = []
unusable headers (h ∷ hs) =
    let rest = unusable headers hs in
    elim (header_str headers h) [ none ↦ h ∷ rest | some value ↦ rest ]

unfoldable pub describe_incomplete : HeaderMap → Bool → Bool → Text
describe_incomplete headers has_host machine_present =
    if machine_present && not (any (λ h. contains_key h headers) attestation_names)
    then text "machine certificate sent without any attestation headers"
    else let missing = unusable headers attestation_names in
      let first : List Text = elim missing [
        | [] ↦ []
        | h ∷ hs ↦ (text "missing or unreadable: " ++ join_with (text ", ") (h ∷ hs)) ∷ []
      ] in
      let second : List Text = if has_host then [] else text "no Host header or :authority" ∷ [] in
      text "incomplete attestation headers (" ++ join_with (text "; ") (first ++ second) ++ text ")"

-- `upstream_request_filter`.
unfoldable pub upstream_request_filter : RequestHeader → RequestHeader
unfolding ts_header nonce_header token_header machine_cert_header
upstream_request_filter req = record req {
  headers = remove_header machine_cert_header (
      remove_header token_header
        (remove_header nonce_header (remove_header ts_header req.headers)));
}

-- The error of `read_request_body`, by its type.
pub record BodyError : Type 0 where
  pub etype : Text

-- The body as it arrives: chunks, then the end or an error.
pub data Body : Type 0 where
  chunk : Bytes → Body → Body
  done : Body
  broken : BodyError → Body

-- What `request_filter` asks of the session.
pub record Session : Type 0 where
  pub client_addr : Option SocketAddr
  pub req_header : RequestHeader
  -- the identity that the TLS layer recorded on the digest
  pub client_cert : Option ClientCert
  pub body : Body
