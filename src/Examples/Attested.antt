-- ===== src/Examples/Attested.antt =====
-- A request of a client of proxy/src/attest.rs, minted and checked with the parameters of `Toy`.
use den_browser.Prelude.{
  ◌≡◌, ◌≢◌, refl, [], ◌∷◌, some, text, as_bytes, utf8, length, arith, contains as mem, list_beq,
  drop,
}
use Prim.Native.Nat.{min}
use den_browser.Prelude.Int.{pos, as_i64, saturating_sub}
use den_browser.Prelude.Decimal.{parse_i64, read_digits}
use den_browser.Prelude.Result.{ok, ◌>>=◌}
use den_browser.Attest.Window.{SystemTime, from_secs, unix_now, check_commit_window}
use den_browser.Attest.NonceCache.{
  NonceCache, Nonce, default, contains, commit, evict_expired, evict_loop,
}
use den_browser.Attest.NonceCache.Invariant.{Inv, default-Inv, commit-Inv}
use den_browser.Attest.NonceCache.Eviction.{count_aged, evict_expired-drop}
use den_browser.Attest.Token.{
  AttestInputs, BodyBinding, unbound, hash, body_binding, unbound_sentinel,
}
use den_browser.Attest.Token.Hex.{IsBytes}
use den_browser.Attest.Token.Reading.{IsPlain}
use den_browser.Attest.Verifier.{PhaseOne, verify_headers, commit_nonce}
use den_browser.Attest.Binding.{IsAccepted, verify_headers-IsAccepted, token_fixes_request}
use den_browser.Attest.Mint.{make_token, make_token_with_body_field}
use den_browser.Attest.Mint.RoundTrip.{
  IsTimely, IsFresh, minted_verifies, minted_verifies_bound, make_token_verifies,
}
use den_browser.Attest.OneUse.{token_used_once}
use den_browser.Attest.Replay.{Attempt, attempt, run, InStep, accepted_once}
use den_browser.Attest.Replay.Limit.{first_attempt, second_attempt, step_back_reopens}
use den_browser.Examples.Toy.{crates, client, zeros, sha256, encode, decode-encode}

abbrev nonce : Nonce
nonce = zeros 16

-- The request before it carries a token.
abbrev bare : AttestInputs
bare = record {
  ts = text "1700000000";
  nonce_b64 = encode nonce;
  token_b64 = [];
  host = text "example.org";
  method = text "POST";
  path = text "/a?b";
}

abbrev upload : AttestInputs
upload = record bare {
  token_b64 = make_token_with_body_field crates client tt tt bare (text "unbound");
}

abbrev bound : AttestInputs
bound = record bare { token_b64 = make_token crates client tt tt bare (text "hello") }

abbrev wall : SystemTime
wall = some (from_secs 1700000010)

bare_ts : parse_i64 (as_bytes (text "1700000000")) ≡ some (pos 1700000000)
unfolding parse_i64 read_digits as_bytes utf8 text
bare_ts = refl

timely : IsTimely (pos 1700000000) (unix_now wall)
unfolding unix_now as_i64
timely = record { not_early = omega arith; not_late = omega arith }

abbrev other_nonce : Nonce
other_nonce = 1 ∷ zeros 15

upload-IsFresh : IsFresh crates client default wall upload nonce (pos 1700000000)
unfolding contains mem
upload-IsFresh = record {
  ts_parsed = bare_ts;
  timely = timely;
  nonce_decoded = decode-encode nonce;
  nonce_length = refl;
  unseen = refl;
}

bound-IsFresh : IsFresh crates client default wall bound nonce (pos 1700000000)
unfolding contains mem
bound-IsFresh = record {
  ts_parsed = bare_ts;
  timely = timely;
  nonce_decoded = decode-encode nonce;
  nonce_length = refl;
  unseen = refl;
}

upload-IsPlain : IsPlain upload (as_bytes (text "unbound"))
unfolding mem as_bytes utf8 text encode
upload-IsPlain = record {
  nonce_b64 = refl;
  ts = refl;
  host = refl;
  method = refl;
  path = refl;
  body = refl;
}

bound-IsPlain : IsPlain bound []
unfolding mem as_bytes utf8 text encode
bound-IsPlain = record {
  nonce_b64 = refl;
  ts = refl;
  host = refl;
  method = refl;
  path = refl;
  body = refl;
}

unbound_field : body_binding (as_bytes (text "unbound")) ≡ ok unbound
unfolding body_binding as_bytes utf8 text unbound_sentinel list_beq
unbound_field = refl

upload_minted :
    upload.token_b64 ≡ make_token_with_body_field crates client tt tt upload (text "unbound")
unfolding make_token_with_body_field den_browser.Attest.Token.Reading.compose
upload_minted = refl

bound_minted : bound.token_b64 ≡ make_token crates client tt tt bound (text "hello")
unfolding make_token make_token_with_body_field den_browser.Attest.Token.Reading.compose
bound_minted = refl

minted_verifies_example : verify_headers crates tt default wall upload ≡ (do
  binding ← body_binding (as_bytes (text "unbound"))
  ok (record { nonce = nonce; body_binding = binding; ts = pos 1700000000 }))
minted_verifies_example =
    minted_verifies crates client tt tt default wall upload nonce (pos 1700000000) (text "unbound")
      upload_minted upload-IsFresh upload-IsPlain

digest-IsBytes : IsBytes (sha256 (text "hello"))
unfolding sha256 text
digest-IsBytes = ground arith

digest_length : length (sha256 (text "hello")) ≡ 32
unfolding sha256
digest_length = refl

make_token_verifies_example :
    verify_headers crates tt default wall bound
    ≡ ok
        (record { nonce = nonce; body_binding = hash (sha256 (text "hello")); ts = pos 1700000000 })
make_token_verifies_example =
    make_token_verifies crates client tt tt default wall bound nonce (pos 1700000000) (text "hello")
      bound_minted bound-IsFresh bound-IsPlain digest-IsBytes digest_length

abbrev phase_one : PhaseOne
phase_one = record { nonce = nonce; body_binding = unbound; ts = pos 1700000000 }

minted_verifies_upload : verify_headers crates tt default wall upload ≡ ok phase_one
minted_verifies_upload =
    minted_verifies_bound crates client tt tt default wall upload nonce (pos 1700000000)
      (text "unbound") unbound upload_minted upload-IsFresh upload-IsPlain unbound_field

verify_headers-IsAccepted_example : IsAccepted crates tt default wall upload phase_one
verify_headers-IsAccepted_example =
    verify_headers-IsAccepted crates tt default wall upload phase_one minted_verifies_upload

abbrev first : Attempt
first = record { p1 = phase_one; since_epoch = from_secs 1700000011; at = from_secs 100 }

abbrev stranger : Attempt
stranger = record {
  p1 = record { nonce = other_nonce; body_binding = unbound; ts = pos 1700000005 };
  since_epoch = from_secs 1700000012;
  at = from_secs 101;
}

abbrev replay : Attempt
replay = record { p1 = phase_one; since_epoch = from_secs 1700000020; at = from_secs 109 }

clocks : InStep first replay
clocks = record { date_a = omega arith; date_b = omega arith; step = omega arith }

first_accepted : (attempt (run default (stranger ∷ [])) first).1 ≡ ok tt
unfolding run commit_nonce contains commit evict_expired evict_loop mem check_commit_window unix_now
    as_i64 saturating_sub list_beq
first_accepted = refl

token_used_once_example :
    (attempt (run (attempt (run default (stranger ∷ [])) first).0 (stranger ∷ [])) replay).1 ≢ ok tt
token_used_once_example =
    token_used_once crates tt default default wall wall upload upload (stranger ∷ []) first
      (stranger ∷ []) replay refl minted_verifies_upload minted_verifies_upload (omega arith, tt)
      clocks first_accepted

accepted_once_example :
    (attempt (run (attempt (run default (stranger ∷ [])) first).0 (stranger ∷ [])) replay).1 ≢ ok tt
accepted_once_example =
    accepted_once (stranger ∷ []) first (stranger ∷ []) replay (omega arith, tt) clocks refl refl
      first_accepted

token_fixes_request_example :
    (nonce ≡ nonce)
    × (pos 1700000000 ≡ pos 1700000000)
    × (unbound ≡ unbound)
    × (as_bytes upload.host ≡ as_bytes upload.host)
    × (as_bytes upload.method ≡ as_bytes upload.method)
    × (as_bytes upload.path ≡ as_bytes upload.path)
    × (as_bytes upload.nonce_b64 ≡ as_bytes upload.nonce_b64)
    × (as_bytes upload.ts ≡ as_bytes upload.ts)
token_fixes_request_example =
    token_fixes_request crates tt default default wall wall upload upload phase_one phase_one refl
      minted_verifies_upload minted_verifies_upload

abbrev held : NonceCache
held = record {
  seen = nonce ∷ other_nonce ∷ [];
  expiry = (nonce, 0) ∷ (other_nonce, from_secs 100) ∷ [];
}

commit-Inv_example : Inv (commit default nonce 7).0
commit-Inv_example = commit-Inv default nonce 7 default-Inv

evict_expired-drop_example :
    (evict_expired held (from_secs 200)).expiry
    ≡ drop (min 256 (count_aged (from_secs 200) held.expiry)) held.expiry
evict_expired-drop_example =
    evict_expired-drop held (from_secs 200) 0 (omega arith, (omega arith, omega arith))

step_back_reopens_example :
    ((attempt default (first_attempt nonce 1700000000 5)).1 ≡ ok tt)
    × ((attempt
          (run
            (attempt default (first_attempt nonce 1700000000 5)).0
            (second_attempt other_nonce 1700000000 5 ∷ []))
          (second_attempt nonce 1700000000 5)).1
        ≡ ok tt)
step_back_reopens_example =
    step_back_reopens nonce other_nonce 1700000000 5 (λ e. cc e) (omega arith)
