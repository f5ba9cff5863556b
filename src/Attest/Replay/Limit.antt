-- ===== src/Attest/Replay/Limit.antt =====
-- How far the wall clock may fall back (the comment on `NonceCache` in proxy/src/attest.rs names
-- 59 s): one nanosecond more lets a token be accepted twice.
use den_browser.Prelude.{
  ℕ, ◌+◌, ◌-◌, ◌^◌, ◌<◌, ◌≡◌, ◌≢◌, refl, some, [], ◌∷◌, contains as mem, remove, arith, eq_iff,
  nat_eq, list_eq,
}
use den_browser.Prelude.Int.{pos, saturating_sub}
use den_browser.Prelude.Result.{ok}
use den_browser.Attest.Window.{Instant, from_secs, nonce_ttl, unix_now, check_commit_window}
use den_browser.Attest.NonceCache.{
  NonceCache, Nonce, default, contains, commit, evict_expired, evict_loop,
}
use den_browser.Attest.Token.{unbound}
use den_browser.Attest.Verifier.{PhaseOne, commit_nonce}
use den_browser.Attest.Replay.{Attempt, attempt, run, unix_now_date}

abbrev pub phase_one : Nonce → ℕ → PhaseOne
phase_one nonce s = record { nonce = nonce; body_binding = unbound; ts = pos s }

-- The first second of the window, and the last nanosecond of the commit window 180 s later on the
-- monotonic clock.
abbrev pub first_attempt : Nonce → ℕ → Instant → Attempt
first_attempt nonce s t = record {
  p1 = phase_one nonce (s + 30);
  since_epoch = from_secs s;
  at = t;
}

abbrev pub second_attempt : Nonce → ℕ → Instant → Attempt
second_attempt nonce s t = record {
  p1 = phase_one nonce (s + 30);
  since_epoch = from_secs (s + 121) - 1;
  at = t + nonce_ttl;
}

open_at_start :
    (s : ℕ)
    → s < 2 ^ 60
    → check_commit_window (pos (s + 30)) (unix_now (some (from_secs s))) ≡ ok tt
unfolding check_commit_window saturating_sub
open_at_start s h = rw (unix_now_date (from_secs s) (omega arith)) (ground arith)

open_at_end :
    (s : ℕ)
    → s < 2 ^ 60
    → check_commit_window (pos (s + 30)) (unix_now (some (from_secs (s + 121) - 1))) ≡ ok tt
unfolding check_commit_window saturating_sub
open_at_end s h = rw (unix_now_date (from_secs (s + 121) - 1) (omega arith)) (ground arith)

abbrev holding : Nonce → Instant → NonceCache
holding nonce t = record { seen = nonce ∷ []; expiry = (nonce, t) ∷ [] }

first_commit :
    (nonce : Nonce) (s : ℕ) (t : Instant)
    → s < 2 ^ 60
    → attempt default (first_attempt nonce s t) ≡ (holding nonce t, ok tt)
unfolding commit_nonce commit evict_expired evict_loop contains mem
first_commit nonce s t h = rw (open_at_start s h)

-- The commit of another request drops the aged entry.
other_commit :
    (nonce other : Nonce) (s : ℕ) (t : Instant)
    → nonce ≢ other
    → s < 2 ^ 60
    → attempt (holding nonce t) (second_attempt other s t) ≡ (holding other (t + nonce_ttl), ok tt)
unfolding commit_nonce commit evict_expired evict_loop contains mem remove
other_commit nonce other s t ne h =
    ground (arith, open_at_end s h, eq_iff nonce other, eq_iff nonce nonce)

second_commit :
    (nonce other : Nonce) (s : ℕ) (t : Instant)
    → nonce ≢ other
    → s < 2 ^ 60
    → (attempt (holding other (t + nonce_ttl)) (second_attempt nonce s t)).1 ≡ ok tt
unfolding commit_nonce commit evict_expired evict_loop contains mem remove
second_commit nonce other s t ne h = ground (arith, open_at_end s h, eq_iff other nonce)

run_one : (c : NonceCache) (a : Attempt) → run c (a ∷ []) ≡ (attempt c a).0
unfolding run
run_one c a = refl

-- The bound of 59 s is exact: for every nonce, timestamp (from 30 s on, below 2^60 s) and first
-- instant, a wall clock that falls back by 59 s and one nanosecond lets the token be committed
-- twice, once the commit of a request with any other nonce has dropped the aged entry.
pub step_back_reopens :
    (nonce other : Nonce) (s : ℕ) (t : Instant)
    → nonce ≢ other
    → s < 2 ^ 60
    → ((attempt default (first_attempt nonce s t)).1 ≡ ok tt)
      × ((attempt
            (run (attempt default (first_attempt nonce s t)).0 (second_attempt other s t ∷ []))
            (second_attempt nonce s t)).1
          ≡ ok tt)
step_back_reopens nonce other s t ne h =
    rw (first_commit nonce s t h, run_one, other_commit nonce other s t ne h)
      (refl, second_commit nonce other s t ne h)
