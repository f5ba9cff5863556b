-- ===== src/Examples/Parameters.antt =====
-- The parameters of the other components of proxy/src: an exact estimator, networks of one address,
-- certificates that all chain, and crates that leave bytes as they are.
use den_browser.Prelude.{
  ℕ, ◌+◌, ◌<◌, ◌≡◌, ◌≢◌, refl, true, [], ◌∷◌, Option, none, some, Text, Bytes, text, ◌==◌, nat_eq,
  list_eq, eq_iff, eq_refl, arith, if◌then◌else◌, Bool-cases, inl, inr,
}
use den_browser.Prelude.Int.{pos}
use den_browser.Prelude.Result.{ok}
use den_browser.Net.{IpAddr, v4, ip_eq}
use den_browser.Mtls.{Certificate, NameEntry}
use den_browser.Audit.Request.{Calendar}
use den_browser.Attest.Crates.{Crates}
use den_browser.RateLimit.{Limits}
use den_browser.RateLimit.Cap.{IsUpper}
use den_browser.Passthrough.{Nets}
use den_browser.Machine.{Trust}
use den_browser.Proxy.State.{Deps}
use den_browser.Examples.Toy.{sha256}

abbrev pub Counts : Type 0
Counts = IpAddr → ℕ

abbrev pub limits : Limits
limits = record {
  Rate = Counts;
  new_rate = λ window ip. 0;
  observe = λ r ip. ((λ x. if x == ip then r x + 1 else r x), pos (r ip + 1));
  GlobMatcher = Text;
  compile = λ pattern. some pattern;
  is_match = λ pattern target. pattern == target;
}

pub count_self : (r : Counts) (ip : IpAddr) → (if ip == ip then r ip + 1 else r ip) ≡ r ip + 1
count_self r ip = rw (eq_refl ip)

pub count_ne :
    (r : Counts) (ip other : IpAddr)
    → ip ≢ other
    → (if other == ip then r other + 1 else r other) ≡ r other
count_ne r ip other ne = elim (Bool-cases (other == ip)) [
  | inl same ↦ let e = (eq_iff other ip).0 same in absurd (ne (cc e))
  | inr different ↦ rw different
]

pub below : (r : Counts) (ip : IpAddr) → r ip < r ip + 1
below r ip = omega arith

abbrev pub upper : IsUpper limits
upper = record {
  count = λ r ip. r ip;
  reported = λ r ip. r ip + 1;
  observe-eq = λ r ip. refl;
  count-reported = below;
  count-observe_self = count_self;
  count-observe_ne = count_ne;
}

abbrev pub nets : Nets
nets = record {
  IpNet = IpAddr;
  parse_net = λ range. if range == text "10.0.0.1/32" then some (v4 167772161) else none;
  contains_ip = λ net ip. net == ip;
}

abbrev pub common_name : Text → NameEntry
common_name name = record {
  is_common_name = true;
  is_known = true;
  short_name = some (text "CN");
  object = text "2.5.4.3";
  as_utf8 = some name;
  lossy = name;
}

abbrev pub workstation : Certificate
workstation = record { subject_name = common_name (text "WS1.corp") ∷ []; subject_alt_names = none }

abbrev pub trust : Trust
trust = record {
  decode = λ b64. some b64;
  from_der = λ der. some workstation;
  stack_from_pem = λ pem. ok (workstation ∷ []);
  X509Store = Unit {0};
  build_store = λ cas partial. ok tt;
  verify_chain = λ trusted cert. ok (record { passed = true; code = 0; reason = [] });
  GlobMatcher = Text;
  compile = λ pattern. some pattern;
  is_match = λ pattern name. pattern == name;
  show_ip = λ ip. [];
}

abbrev pub calendar : Calendar
calendar = record {
  OffsetDateTime = Unit {0};
  from_unix_timestamp = λ secs. none;
  year = λ t. 1970;
  month = λ t. 1;
  day = λ t. 1;
  hour = λ t. 0;
  minute = λ t. 0;
  second = λ t. 0;
  millisecond = λ t. 0;
}

-- A bar stands for a line break, which no header may hold.
breaks : Bytes → Bytes
breaks [] = []
breaks (b ∷ bs) = (if b == b'|' then 10 else b) ∷ breaks bs

unfoldable pub unwrap : Bytes → Option Bytes
unfolding breaks
unwrap bytes = some (breaks bytes)

abbrev pub plain_crates : Crates
plain_crates = record {
  SecretKey = Unit {0};
  PublicKey = Unit {0};
  from_sec1_pem = λ pem. some tt;
  from_sec1_bytes = λ point. some tt;
  diffie_hellman = λ private public. [];
  sha256 = sha256;
  aes_decrypt = λ key iv ct_tag. some ct_tag;
  decode = unwrap;
}

abbrev pub deps : Deps
deps = record {
  crates = plain_crates;
  limits = limits;
  nets = nets;
  trust = trust;
  calendar = calendar;
}
