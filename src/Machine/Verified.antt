-- ===== src/Machine/Verified.antt =====
-- What `verify` of proxy/src/machine.rs has established when it names a machine.
use den_browser.Prelude.{
  ◌+◌, ◌<◌, ◌≡◌, refl, ap, ◌∙◌, Bool, true, false, ◌||◌, inl, inr, List, Option, none, some, Text,
  Bytes, as_bytes, trim, to_ascii_lowercase, any, contains, nat_eq, list_eq, arith, Option-cases,
}
use den_browser.Prelude.Result.{Result, ok, err, ok_or, >>=-eq-ok, ok_or-eq-ok, Result-cases}
use den_browser.Net.{IpAddr, ip_eq}
use den_browser.Mtls.{Certificate, ClientCert, from_cert}
use den_browser.Attest.Window.{Instant}
use den_browser.Machine.DnsCache.{
  Cache, CacheEntry, Ttls, elapsed, get, fresh, stale, settle, is_negative,
}
use den_browser.Machine.{
  Trust, ChainVerdict, VerifiedMachine, MachineIdentity, is_empty, is_unsafe, Lookup, read_cert,
  check_cert, verify_cert, check_address, resolve_cached, verify,
}

-- OpenSSL ran the check of the chain, and it passed.
abbrev pub chain_passes : Result ChainVerdict Text → Bool
chain_passes (ok verdict) = verdict.passed
chain_passes (err e) = false

module _ (lib : Trust) where
  open lib use {decode, from_der, verify_chain, is_match}

  -- The header holds a certificate that chains to the machine CA, with a Common Name of visible
  -- ASCII characters, which is the host name in lower case and which the allowlist accepts.
  pub record IsTrusted (mi : MachineIdentity lib) (cert_b64 : Text) (m : VerifiedMachine)
      : Type 0 where
    pub der : Bytes
    pub cert : Certificate
    pub common_name : Text
    pub decoded : decode (as_bytes (trim cert_b64)) ≡ some der
    pub parsed : from_der der ≡ some cert
    pub named : (from_cert cert).common_name ≡ some common_name
    pub safe : (is_empty common_name || any is_unsafe common_name) ≡ false
    pub hostname : m.hostname ≡ to_ascii_lowercase common_name
    pub subject_dn : m.subject_dn ≡ (from_cert cert).subject_dn
    pub listed :
        (is_empty mi.allowed || any (λ g. is_match g (to_ascii_lowercase common_name)) mi.allowed)
        ≡ true
    pub chained : chain_passes (verify_chain mi.trusted cert) ≡ true

  read_cert-eq-ok :
      (cert_b64 : Text) {cert : Certificate}
      → read_cert lib cert_b64 ≡ ok cert
      → (der : Bytes) × (decode (as_bytes (trim cert_b64)) ≡ some der) × (from_der der ≡ some cert)
  unfolding read_cert
  read_cert-eq-ok cert_b64 h =
      let (der, decoded, parsed) = >>=-eq-ok (ok_or (decode (as_bytes (trim cert_b64))) _) _ h in
      (
        der,
        ok_or-eq-ok (decode (as_bytes (trim cert_b64))) _ decoded,
        ok_or-eq-ok (from_der der) _ parsed,
      )

  check_cert-eq-ok :
      (mi : MachineIdentity lib) (cert : Certificate) (identity : ClientCert) (common_name : Text)
      (m : VerifiedMachine)
      → check_cert lib mi cert identity common_name ≡ ok m
      → ((is_empty common_name || any is_unsafe common_name) ≡ false)
        × (m.hostname ≡ to_ascii_lowercase common_name)
        × (m.subject_dn ≡ identity.subject_dn)
        × ((is_empty mi.allowed
              || any (λ g. is_match g (to_ascii_lowercase common_name)) mi.allowed)
            ≡ true)
        × (chain_passes (verify_chain mi.trusted cert) ≡ true)
  unfolding check_cert
  check_cert-eq-ok mi cert identity common_name m h = ground arith

  verify_cert-IsTrusted :
      (mi : MachineIdentity lib) (cert_b64 : Text) (m : VerifiedMachine)
      → verify_cert lib mi cert_b64 ≡ ok m
      → IsTrusted mi cert_b64 m
  unfolding verify_cert
  verify_cert-IsTrusted mi cert_b64 m h =
      let (cert, read, h1) = >>=-eq-ok (read_cert lib cert_b64) _ h in
      let (der, decoded, parsed) = read_cert-eq-ok cert_b64 read in
      let (common_name, named, h2) = >>=-eq-ok (ok_or (from_cert cert).common_name _) _ h1 in
      let checked = check_cert-eq-ok mi cert (from_cert cert) common_name m h2 in
      record {
        der = der;
        cert = cert;
        common_name = common_name;
        decoded = decoded;
        parsed = parsed;
        named = ok_or-eq-ok (from_cert cert).common_name _ named;
        safe = checked.0;
        hostname = checked.1;
        subject_dn = checked.2;
        listed = checked.3;
        chained = checked.4;
      }

  -- Where an address of the host was found: in an entry of the cache within its time to live, in
  -- the answer of the resolver, or, when the resolver failed, in an entry within the grace period.
  pub data IsResolved (ttls : Ttls) (cache : Cache) (host : Text) (ip : IpAddr) (l : Lookup)
      : Type 0 where
    from_cache :
        (e : CacheEntry)
        → get host cache ≡ some e
        → elapsed e l.asked < ttls.dns_ttl
        → contains ip e.addrs ≡ true
        → IsResolved ttls cache host ip l
    from_resolver :
        (addrs : List IpAddr)
        → l.answer host ≡ some addrs
        → contains ip addrs ≡ true
        → IsResolved ttls cache host ip l
    from_stale :
        (e : CacheEntry)
        → l.answer host ≡ none
        → get host (l.meanwhile cache) ≡ some e
        → elapsed e l.answered < ttls.dns_ttl + ttls.dns_stale_grace
        → contains ip e.addrs ≡ true
        → IsResolved ttls cache host ip l

  fresh-eq-some :
      (ttls : Ttls) (cache : Cache) (host : Text) (ip : IpAddr) (now : Instant)
      (addrs : List IpAddr)
      → fresh ttls cache host now ≡ some addrs
      → contains ip addrs ≡ true
      → (e : CacheEntry) × (get host cache ≡ some e)
        × (elapsed e now < ttls.dns_ttl)
        × (e.addrs ≡ addrs)
  unfolding fresh is_negative contains
  fresh-eq-some ttls cache host ip now addrs h k = elim (Option-cases (get host cache)) [
    | inl missing ↦ absurd (ground (arith, missing))
    | inr (e, found) ↦ (e, found, ground (arith, found), ground (arith, found))
  ]

  stale-eq-some :
      (ttls : Ttls) (cache : Cache) (host : Text) (now : Instant) (addrs : List IpAddr)
      → stale ttls cache host now ≡ some addrs
      → (e : CacheEntry) × (get host cache ≡ some e)
        × (elapsed e now < ttls.dns_ttl + ttls.dns_stale_grace)
        × (e.addrs ≡ addrs)
  unfolding stale
  stale-eq-some ttls cache host now addrs h = elim (Option-cases (get host cache)) [
    | inl missing ↦ absurd (ground (arith, missing))
    | inr (e, found) ↦ (e, found, ground (arith, found), ground (arith, found))
  ]

  check_address-eq-ok :
      (m n : VerifiedMachine) (ip : IpAddr) (found : Option (List IpAddr))
      → check_address lib m ip found ≡ ok n
      → (addrs : List IpAddr) × (found ≡ some addrs) × (contains ip addrs ≡ true) × (m ≡ n)
  unfolding check_address
  check_address-eq-ok m n ip none h = cc
  check_address-eq-ok m n ip (some addrs) h = (addrs, refl, ground arith, ground arith)

  settle-IsResolved :
      (ttls : Ttls) (cache : Cache) (host : Text) (ip : IpAddr) (l : Lookup) (addrs : List IpAddr)
      → (settle ttls (l.meanwhile cache) host (l.answer host) l.swept l.answered).1 ≡ some addrs
      → contains ip addrs ≡ true
      → IsResolved ttls cache host ip l
  unfolding settle
  settle-IsResolved ttls cache host ip l addrs h k = elim (Option-cases (l.answer host)) [
    | inl failed ↦
        let (e, held, young, same) =
          stale-eq-some ttls (l.meanwhile cache) host l.answered addrs (ground (arith, failed)) in
        from_stale e failed held young (rw same k)
    | inr (given, replied) ↦ from_resolver addrs (ground (arith, replied)) k
  ]

  resolve_cached-IsResolved :
      (mi : MachineIdentity lib) (cache : Cache) (host : Text) (ip : IpAddr) (l : Lookup)
      (addrs : List IpAddr)
      → (resolve_cached lib mi cache host l).1 ≡ some addrs
      → contains ip addrs ≡ true
      → IsResolved mi.ttls cache host ip l
  unfolding resolve_cached
  resolve_cached-IsResolved mi cache host ip l addrs h k =
      elim (Option-cases (fresh mi.ttls cache host l.asked)) [
        | inl old ↦ settle-IsResolved mi.ttls cache host ip l addrs (ground (arith, old)) k
        | inr (kept, hit) ↦
            let (e, held, young, same) =
              fresh-eq-some mi.ttls cache host ip l.asked addrs (ground (arith, hit)) k in
            from_cache e held young (rw same k)
      ]

  -- If `verify` accepts a certificate header, the connection has an address, the certificate is
  -- trusted, and the address is one of the machine's host name: in a cached answer within its time
  -- to live, in the resolver's answer, or, only when the resolver failed, in an older answer within
  -- the grace period.
  pub verify-IsResolved :
      (mi : MachineIdentity lib) (cache : Cache) (cert_b64 : Text) (client_ip : Option IpAddr)
      (l : Lookup) (m : VerifiedMachine)
      → (verify lib mi cache cert_b64 client_ip l).1 ≡ ok m
      → (ip : IpAddr) × (client_ip ≡ some ip)
        × IsTrusted mi cert_b64 m
        × IsResolved mi.ttls cache m.hostname ip l
  unfolding verify
  verify-IsResolved mi cache cert_b64 none l m h = cc
  verify-IsResolved mi cache cert_b64 (some ip) l m h =
      elim (Result-cases (verify_cert lib mi cert_b64)) [
        | inl (n, trusted) ↦
            let (addrs, found, held, same) =
              check_address-eq-ok n m ip (resolve_cached lib mi cache n.hostname l).1
                (ground (arith, trusted)) in
            (
              ip,
              refl,
              verify_cert-IsTrusted mi cert_b64 m (trusted ∙ ap ok same),
              rw (← same) (resolve_cached-IsResolved mi cache n.hostname ip l addrs found held),
            )
        | inr (e, refused) ↦ absurd (ground (arith, refused))
      ]
