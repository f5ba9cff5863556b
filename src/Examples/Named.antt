-- ===== src/Examples/Named.antt =====
-- Certificates, names and the DNS cache of proxy/src/mtls.rs, passthrough.rs and machine.rs.
use den_browser.Prelude.{
  ◌+◌, ◌≡◌, ◌≢◌, ◌↔◌, refl, true, false, not, List, [], ◌∷◌, none, some, Text, text, as_bytes,
  arith, all, find, contains, any, map, list_beq, if◌then◌else◌, ◌==◌, list_eq, nat_eq,
}
use den_browser.Prelude.Result.{ok}
use den_browser.Net.{v4, ip_beq}
use den_browser.Config.{ProxyBypassConfig}
use den_browser.Mtls.{
  ClientCert, NameEntry, matched, is_control, escape_dn_value, distinguished_name,
}
use den_browser.Mtls.Printed.{AllNamed, distinguished_name-plain}
use den_browser.Mtls.Reader.{read_value}
use den_browser.Mtls.Unescape.{read_value-escape_dn_value}
use den_browser.Mtls.Subject.{matched-find}
use den_browser.Passthrough.{BypassPolicy, authorizes, parse_ranges, from_config}
use den_browser.Passthrough.Policy.{
  Permitted, authorizes_iff, authorizes-Permitted, from_config-eq-ok,
}
use den_browser.Machine.DnsCache.{Cache, Ttls, get, store}
use den_browser.Machine.DnsCache.Sweep.{IsMap, IsYoung, young, store-IsMap, get-store}
use den_browser.Examples.Parameters.{nets}

-- A comma, a space at each end, a line break and an accent.
abbrev value : Text
value = 32 ∷ 44 ∷ 10 ∷ 233 ∷ 32 ∷ []

-- A country and an organisation of that value, an attribute that OpenSSL does not know.
abbrev named : List NameEntry
named =
    record {
      is_common_name = false;
      is_known = true;
      short_name = some (text "C");
      object = text "2.5.4.6";
      as_utf8 = some (text "US");
      lossy = [];
    }
    ∷ record {
      is_common_name = false;
      is_known = false;
      short_name = none;
      object = text "1.2.3";
      as_utf8 = none;
      lossy = value;
    }
    ∷ []

c_plain : (short : Text) → some (text "C") ≡ some short → all (λ c. not (is_control c)) short ≡ true
unfolding all is_control text
c_plain short e = ground arith

named-AllNamed : AllNamed named
unfolding all is_control text
named-AllNamed = ((c_plain, refl), ((λ short e. absurd cc, refl), tt))

distinguished_name-plain_example : all (λ c. not (is_control c)) (distinguished_name named) ≡ true
distinguished_name-plain_example = distinguished_name-plain named named-AllNamed

read_value-escape_dn_value_example :
    read_value (as_bytes (escape_dn_value value)) ≡ some (as_bytes value)
read_value-escape_dn_value_example = read_value-escape_dn_value value

abbrev cert : ClientCert
cert = record {
  subject_dn = text "CN=scanner";
  common_name = some (text "scanner");
  san_dns = text "scanner.corp" ∷ [];
}

matched-find_example :
    matched cert (text "scanner.corp" ∷ [])
    ≡ find (λ n. contains n (text "scanner.corp" ∷ [])) (text "scanner" ∷ text "scanner.corp" ∷ [])
matched-find_example = matched-find cert (text "scanner.corp" ∷ [])

abbrev policy : BypassPolicy nets
policy = record { ranges = v4 167772161 ∷ []; allowed_subjects = text "scanner.corp" ∷ [] }

authorizes_iff_example :
    (authorizes nets policy (v4 167772161) cert ≢ none)
    ↔ ((s : Text) × Permitted nets policy (v4 167772161) cert s)
authorizes_iff_example = authorizes_iff nets policy (v4 167772161) cert

granted : authorizes nets policy (v4 167772161) cert ≡ some (text "scanner.corp")
unfolding authorizes any ip_beq matched contains list_beq find text
granted = refl

authorizes-Permitted_example : Permitted nets policy (v4 167772161) cert (text "scanner.corp")
authorizes-Permitted_example =
    authorizes-Permitted nets policy (v4 167772161) cert (text "scanner.corp") granted

abbrev section : ProxyBypassConfig
section = record {
  enabled = true;
  allowed_ip_ranges = text "10.0.0.1/32" ∷ [];
  allowed_subjects = text "scanner.corp" ∷ [];
}

configured : from_config nets section true ≡ ok (some policy)
unfolding from_config parse_ranges list_beq text
configured = refl

from_config-eq-ok_example :
    (true ≡ true)
    × (true ≡ true)
    × (map nets.parse_net (text "10.0.0.1/32" ∷ []) ≡ map some policy.ranges)
    × ((text "10.0.0.1/32" ∷ []) ≢ [])
    × ((text "scanner.corp" ∷ []) ≡ (text "scanner.corp" ∷ []))
    × ((text "scanner.corp" ∷ []) ≢ [])
from_config-eq-ok_example = from_config-eq-ok nets section true policy configured

abbrev ttls : Ttls
ttls = record { dns_ttl = 100; dns_negative_ttl = 10; dns_stale_grace = 50 }

abbrev cache : Cache
cache =
    (text "old", record { addrs = v4 1 ∷ []; fetched = 0 })
    ∷ (text "ws2", record { addrs = v4 2 ∷ []; fetched = 900 })
    ∷ []

cache-IsMap : IsMap cache
unfolding get list_beq text
cache-IsMap = (refl, (refl, tt))

store-IsMap_example :
    IsMap (store ttls cache (text "ws1") (v4 3 ∷ []) 1000 1001)
    × IsYoung (100 + 50) 1000 (store ttls cache (text "ws1") (v4 3 ∷ []) 1000 1001)
store-IsMap_example =
    store-IsMap ttls cache (text "ws1") (v4 3 ∷ []) 1000 1001 cache-IsMap (omega arith)
      (omega arith)

get-store_example : get (text "old") (store ttls cache (text "ws1") (v4 3 ∷ []) 1000 1001) ≡ (
    if text "ws1" == text "old"
    then some (record { addrs = v4 3 ∷ []; fetched = 1001 })
    else young (100 + 50) 1000 (get (text "old") cache))
get-store_example = get-store ttls cache (text "ws1") (text "old") (v4 3 ∷ []) 1000 1001 cache-IsMap
