-- ===== src/Attest/OneUse.antt =====
-- Both phases of proxy/src/attest.rs together: a token is good for one forwarded request.
use den_browser.Prelude.{◌≤◌, ◌≡◌, ◌≢◌, List, All}
use den_browser.Prelude.Result.{ok}
use den_browser.Attest.Window.{SystemTime}
use den_browser.Attest.NonceCache.{NonceCache, default}
use den_browser.Attest.Crates.{Crates}
use den_browser.Attest.Token.{AttestInputs}
use den_browser.Attest.Verifier.{verify_headers}
use den_browser.Attest.Binding.{token_fixes_request}
use den_browser.Attest.Replay.{Attempt, attempt, run, InStep, accepted_once}

module _ (lib : Crates) where
  open lib use {SecretKey}

  -- Two requests that carry the same token and that both pass phase 1, each against some state of
  -- the cache and some clock: if the nonce of the first is committed, after any history, then the
  -- later commit of the second is refused, whatever commits come between, as long as none of those
  -- is later than it, and the wall clock reads dates that fit `i64` seconds and fell back by at most
  -- 59 s between the two.
  pub token_used_once :
      (key : SecretKey) (c d : NonceCache) (v w : SystemTime) (i j : AttestInputs)
      (before : List Attempt) (a : Attempt) (between : List Attempt) (b : Attempt)
      → i.token_b64 ≡ j.token_b64
      → verify_headers lib key c v i ≡ ok a.p1
      → verify_headers lib key d w j ≡ ok b.p1
      → All (λ x. x.at ≤ b.at) between
      → InStep a b
      → (attempt (run default before) a).1 ≡ ok tt
      → (attempt (run (attempt (run default before) a).0 between) b).1 ≢ ok tt
  token_used_once key c d v w i j before a between b same first second earlier clocks =
      let one = token_fixes_request lib key c d v w i j a.p1 b.p1 same first second in
      accepted_once before a between b earlier clocks one.0 one.1
