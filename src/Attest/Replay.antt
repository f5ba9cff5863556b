-- ===== src/Attest/Replay.antt =====
-- Replay protection over whole histories of commits (`Verifier::commit_nonce` of
-- proxy/src/attest.rs): threads interleave, and each commit is one step under the lock.
pub mod Limit
use den_browser.Prelude.{
  ℕ, ◌+◌, ◌-◌, ◌*◌, ◌^◌, ◌/◌, ◌≤◌, ◌<◌, ◌≡◌, ◌≢◌, refl, ap, subst, Bool, true, false, Option, none,
  some, List, [], ◌∷◌, ◌++◌, All, contains as mem, remove, arith, eq_iff, nat_eq, list_eq,
  Bool-cases, inl, inr, ltb, lt→ltb,
}
use den_browser.Prelude.Int.{
  ℤ, pos, pos_part, neg_part, saturating_sub, saturating_abs, as_i64, as_i64_small, clamp_i64, ◌-ℤ◌,
  i64_max,
}
use den_browser.Prelude.Result.{Result, ok, err}
use den_browser.Attest.Error.{AttestError, nonce_replay}
use den_browser.Attest.Window.{
  SystemTime, Instant, from_secs, nonce_ttl, unix_now, check_commit_window,
}
use den_browser.Attest.NonceCache.{
  NonceCache, Nonce, default, contains, commit, evict_expired, evict_loop,
}
use den_browser.Attest.NonceCache.Invariant.{Inv, default-Inv, commit-Inv}
use den_browser.Attest.NonceCache.Eviction.{
  committed_at, mem-committed_at, commit_keeps, commit_records,
}
use den_browser.Attest.Token.{unbound}
use den_browser.Attest.Verifier.{PhaseOne, commit_nonce}

-- One call of `commit_nonce`, with what it reads from the two clocks.
pub record Attempt : Type 0 where
  pub p1 : PhaseOne
  pub since_epoch : ℕ
  pub at : Instant

abbrev pub attempt : NonceCache → Attempt → NonceCache × Result (Unit {0}) AttestError
attempt cache a = commit_nonce cache a.p1 (some a.since_epoch) a.at

unfoldable pub run : NonceCache → List Attempt → NonceCache
run cache [] = cache
run cache (a ∷ rest) = run (attempt cache a).0 rest

pub commit_nonce-Inv :
    (c : NonceCache) (p1 : PhaseOne) (wall : SystemTime) (now : Instant)
    → Inv c
    → Inv (commit_nonce c p1 wall now).0
unfolding commit_nonce
commit_nonce-Inv c p1 wall now v = ground (arith, commit-Inv c p1.nonce now v)

run-Inv : (c : NonceCache) (attempts : List Attempt) → Inv c → Inv (run c attempts)
unfolding run
run-Inv c [] v = v
run-Inv c (a ∷ rest) v =
    run-Inv (attempt c a).0 rest (commit_nonce-Inv c a.p1 (some a.since_epoch) a.at v)

-- The window of `check_commit_window`: ts - 30 ≤ now ≤ ts + 90, saturated differences included.
commit_window :
    (ts now : ℤ)
    → check_commit_window ts now ≡ ok tt
    → (pos_part ts + neg_part now ≤ pos_part now + neg_part ts + 30)
      × (pos_part now + neg_part ts ≤ pos_part ts + neg_part now + 90)
unfolding check_commit_window saturating_sub
commit_window ts now h = ground arith

All-map :
    (P Q : Attempt → Type 0) (attempts : List Attempt)
    → ((a : Attempt) → P a → Q a)
    → All P attempts
    → All Q attempts
All-map P Q [] f h = tt
All-map P Q (a ∷ rest) f h = (f a h.0, All-map P Q rest f h.1)

-- A nonce that is recorded stays recorded through any attempts before it ages out.
run_keeps :
    (c : NonceCache) (n : Nonce) (t : Instant) (attempts : List Attempt)
    → All (λ a. a.at < t + nonce_ttl) attempts
    → committed_at n c.expiry ≡ some t
    → committed_at n (run c attempts).expiry ≡ some t
unfolding run commit_nonce
run_keeps c n t [] young h = h
run_keeps c n t (a ∷ rest) young h =
    run_keeps (attempt c a).0 n t rest young.1
      (ground (arith, commit_keeps c n a.p1.nonce t a.at young.0 h))

-- The two clocks between an attempt and a later one: the wall clock reads a date that fits `i64`
-- seconds, and it fell back by 59 s at most against the monotonic clock.
pub record InStep (a b : Attempt) : Type 0 where
  pub date_a : a.since_epoch < from_secs (2 ^ 63)
  pub date_b : b.since_epoch < from_secs (2 ^ 63)
  pub step : b.at + a.since_epoch ≤ a.at + b.since_epoch + from_secs 59

accepted :
    (c : NonceCache) (a : Attempt)
    → (attempt c a).1 ≡ ok tt
    → (check_commit_window a.p1.ts (unix_now (some a.since_epoch)) ≡ ok tt)
      × ((commit c a.p1.nonce a.at).1 ≡ ok tt)
      × ((attempt c a).0 ≡ (commit c a.p1.nonce a.at).0)
unfolding commit_nonce
accepted c a h = ground arith

pub unix_now_date : (e : ℕ) → e < from_secs (2 ^ 63) → unix_now (some e) ≡ pos (e / 10 ^ 9)
unfolding unix_now
unix_now_date e h = as_i64_small (e / 10 ^ 9) (omega arith)

-- The whole seconds of an accepted attempt lie in the window.
accepted_window :
    (c : NonceCache) (a : Attempt)
    → a.since_epoch < from_secs (2 ^ 63)
    → (attempt c a).1 ≡ ok tt
    → (pos_part a.p1.ts ≤ a.since_epoch / 10 ^ 9 + neg_part a.p1.ts + 30)
      × (a.since_epoch / 10 ^ 9 + neg_part a.p1.ts ≤ pos_part a.p1.ts + 90)
accepted_window c a date h =
    let open_window = rw (unix_now_date a.since_epoch date) at (accepted c a h).0 in
    let bounds = commit_window a.p1.ts (pos (a.since_epoch / 10 ^ 9)) open_window in
    omega (arith, bounds)

-- Two acceptances of one token lie less than `nonce_ttl` apart.
span :
    (c d : NonceCache) (a b : Attempt)
    → InStep a b
    → a.p1.ts ≡ b.p1.ts
    → (attempt c a).1 ≡ ok tt
    → (attempt d b).1 ≡ ok tt
    → b.at < a.at + nonce_ttl
span c d a b s e first second = omega (
  arith,
  accepted_window c a s.date_a first,
  accepted_window d b s.date_b second,
  ap pos_part e,
  ap neg_part e,
)

-- An attempt whose nonce is recorded is refused.
attempt_recorded :
    (c : NonceCache) (b : Attempt) {t : Instant}
    → Inv c
    → committed_at b.p1.nonce c.expiry ≡ some t
    → (attempt c b).1 ≢ ok tt
unfolding commit_nonce contains
attempt_recorded c b {t} v h =
    ground (arith, v.agrees b.p1.nonce, mem-committed_at b.p1.nonce t c.expiry h)

-- From the empty cache, after any attempts `before`: if a token is accepted once, no later attempt
-- with its nonce and timestamp is accepted, whatever attempts come between, provided that those
-- are not later than it on the monotonic clock, and the wall clock reads dates that fit `i64` seconds
-- and fell back by at most 59 s.
pub accepted_once :
    (before : List Attempt) (a : Attempt) (between : List Attempt) (b : Attempt)
    → All (λ x. x.at ≤ b.at) between
    → InStep a b
    → a.p1.nonce ≡ b.p1.nonce
    → a.p1.ts ≡ b.p1.ts
    → (attempt (run default before) a).1 ≡ ok tt
    → (attempt (run (attempt (run default before) a).0 between) b).1 ≢ ok tt
accepted_once before a between b earlier clocks same_nonce same_ts first second =
    let c = run default before in
    let v = run-Inv default before default-Inv in
    let d = (attempt c a).0 in
    let taken = accepted c a first in
    let young = span c (run d between) a b clocks same_ts first second in
    let recorded : committed_at a.p1.nonce d.expiry ≡ some a.at =
      rw (taken.2) (commit_records c a.p1.nonce a.at v taken.1) in
    let kept =
      run_keeps d a.p1.nonce a.at between
        (All-map (λ x. x.at ≤ b.at) (λ x. x.at < a.at + nonce_ttl) between (λ x h. omega arith)
          earlier)
        recorded in
    attempt_recorded (run d between) b {t = a.at}
      (run-Inv d between (commit_nonce-Inv c a.p1 (some a.since_epoch) a.at v))
      (rw (← same_nonce) kept) second
