-- ===== src/Proxy/Strip.antt =====
-- `upstream_request_filter` of proxy/src/main.rs: what the upstream sees of the headers.
use den_browser.Prelude.{
  ◌≡◌, refl, false, List, [], ◌∷◌, none, Text, contains, ◌==◌, eq_iff, list_eq, nat_eq,
  if◌then◌else◌, arith,
}
use den_browser.Proxy.Http.{
  HeaderMap, RequestHeader, get, contains_key, remove_header, ts_header, nonce_header, token_header,
  machine_cert_header, upstream_request_filter,
}

get-remove_header :
    (gone name : Text) (headers : HeaderMap)
    → get name (remove_header gone headers) ≡ (if gone == name then none else get name headers)
unfolding get remove_header
get-remove_header gone name [] = ground arith
get-remove_header gone name ((n, v) ∷ headers) =
    ground
      (arith, get-remove_header gone name headers, eq_iff n gone, eq_iff n name, eq_iff gone name)

contains_key-remove_header :
    (gone name : Text) (headers : HeaderMap)
    → contains_key name (remove_header gone headers)
      ≡ (if gone == name then false else contains_key name headers)
unfolding contains_key remove_header
contains_key-remove_header gone name [] = ground arith
contains_key-remove_header gone name ((n, v) ∷ headers) = ground (
  arith,
  contains_key-remove_header gone name headers,
  eq_iff n gone,
  eq_iff n name,
  eq_iff gone name,
)

-- The headers that stay between the browser and the proxy.
pub kept_back : List Text
kept_back = ts_header ∷ nonce_header ∷ token_header ∷ machine_cert_header ∷ []

-- `upstream_request_filter` leaves no value of an attestation header or of the machine certificate
-- in the request that it is handed, and of every other header the first value that it was handed;
-- method and path are unchanged.
pub upstream_request_filter_lem :
    (req : RequestHeader) (name : Text)
    → (get name (upstream_request_filter req).headers
        ≡ (if contains name kept_back then none else get name req.headers))
      × (contains_key name (upstream_request_filter req).headers
          ≡ (if contains name kept_back then false else contains_key name req.headers))
      × ((upstream_request_filter req).method ≡ req.method)
      × ((upstream_request_filter req).path_and_query ≡ req.path_and_query)
unfolding upstream_request_filter kept_back contains
upstream_request_filter_lem req name =
    let a = req.headers in
    let b = remove_header ts_header a in
    let c = remove_header nonce_header b in
    let d = remove_header token_header c in
    (
      ground (
        arith,
        get-remove_header machine_cert_header name d,
        get-remove_header token_header name c,
        get-remove_header nonce_header name b,
        get-remove_header ts_header name a,
      ),
      ground (
        arith,
        contains_key-remove_header machine_cert_header name d,
        contains_key-remove_header token_header name c,
        contains_key-remove_header nonce_header name b,
        contains_key-remove_header ts_header name a,
      ),
      refl,
      refl,
    )
