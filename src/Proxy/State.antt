-- ===== src/Proxy/State.antt =====
-- The state of proxy/src/main.rs: `DenBrowserProxy`, what its requests share, what a call of
-- `request_filter` meets, and the loop that reads a body.
use den_browser.Prelude.{
  ℕ, ◌+◌, Bool, true, false, [], ◌∷◌, ◌++◌, Option, none, some, Text, Bytes, as_bytes, length, leb,
  ltb, rsplit_once, if◌then◌else◌, ◌==◌, nat_eq,
}
use den_browser.Prelude.Result.{Result, ok, err, ◌>>=◌, ok_or}
use den_browser.Prelude.Decimal.{read_digits}
use den_browser.Audit.Request.{Calendar, RequestAudit}
use den_browser.Attest.Window.{SystemTime, Instant}
use den_browser.Attest.NonceCache.{NonceCache}
use den_browser.Attest.Crates.{Crates}
use den_browser.RateLimit.{Limits, RateLimiter}
use den_browser.Passthrough.{Nets, BypassPolicy}
use den_browser.Machine.DnsCache.{Cache}
use den_browser.Machine.{Trust, MachineIdentity, Lookup}
use den_browser.Proxy.Http.{Body, chunk, done, broken}

abbrev pub bound_body_max : ℕ
bound_body_max = 65536

-- The parameters of the components together.
pub record Deps : Type 1 where
  pub crates : Crates
  pub limits : Limits
  pub nets : Nets
  pub trust : Trust
  pub calendar : Calendar

-- What one call of `request_filter` meets.
pub record Meets (S : Type 0) : Type 0 where
  pub after_admit : S → S
  pub wall_headers : SystemTime
  pub after_headers : S → S
  pub lookup : Lookup
  pub before_commit : S → S
  pub wall_commit : SystemTime
  pub at : Instant

pub record Headers : Type 0 where
  pub ts : Text
  pub nonce : Text
  pub token : Text
  pub host : Text

pub data BodyFailure : Type 0 where
  too_large : BodyFailure
  read_failed : Text → BodyFailure

-- The loop over the chunks, with what has been read; the hasher is fed as the bytes arrive, so its
-- digest is that of all of them.
unfoldable pub read_body : Bytes → Body → Result Bytes BodyFailure
read_body sofar (chunk c rest) =
    let total = length sofar + length c in
    let later = read_body (sofar ++ c) rest in
    if ltb bound_body_max total then err too_large else later
read_body sofar done = ok sofar
read_body sofar (broken e) = err (read_failed e.etype)

parse_digits : Bytes → Option ℕ
parse_digits [] = none
parse_digits (c ∷ cs) = elim (read_digits 0 (c ∷ cs)) [
  | none ↦ none
  | some n ↦ if leb n 65535 then some n else none
]

-- `str::parse::<u16>`.
unfoldable pub parse_u16 : Bytes → Option ℕ
unfolding parse_digits
parse_u16 [] = none
parse_u16 (c ∷ cs) = if c == b'+' then parse_digits cs else parse_digits (c ∷ cs)

pub data NewError : Type 0 where
  not_host_port : Text → NewError
  bad_port : Text → NewError

-- The early return or the last value.
abbrev pub returned {ℓ} : {A : Type ℓ} → Result A A → A
returned (ok a) = a
returned (err a) = a

module _ (deps : Deps) where
  open deps use {crates, limits, nets, trust, calendar}

  -- `rate_limiter` stands in the shared state. `upstream_tls` is not read here.
  pub record DenBrowserProxy : Type 0 where
    pub private_key : crates.SecretKey
    pub upstream_host : Text
    pub upstream_port : ℕ
    pub bypass_policy : Option (BypassPolicy nets)
    pub machine : Option (MachineIdentity trust)

  unfoldable pub new_proxy :
      crates.SecretKey
      → Text
      → Option (BypassPolicy nets)
      → Option (MachineIdentity trust)
      → Result DenBrowserProxy NewError
  new_proxy key upstream policy machine = do
    parts ← ok_or (rsplit_once b':' upstream) (not_host_port upstream)
    port ← ok_or (parse_u16 (as_bytes parts.1)) (bad_port parts.1)
    ok (record {
      private_key = key;
      upstream_host = parts.0;
      upstream_port = port;
      bypass_policy = policy;
      machine = machine;
    })

  pub record Shared : Type 0 where
    pub rate_limiter : Option (RateLimiter limits)
    pub nonces : NonceCache
    pub dns : Cache

  -- How `request_filter` ends: `response` is the status of its `respond_error`, and `answered` the
  -- value returned.
  pub record Filtered : Type 0 where
    pub shared : Shared
    pub ctx : RequestAudit
    pub response : Option ℕ
    pub answered : Bool

  -- A refusal, which every check ends with.
  unfoldable pub refuse : Shared → RequestAudit → ℕ → Filtered
  refuse shared ctx status = record {
    shared = shared;
    ctx = ctx;
    response = some status;
    answered = true;
  }

  unfoldable pub pass : Shared → RequestAudit → Filtered
  pass shared ctx = record { shared = shared; ctx = ctx; response = none; answered = false }
