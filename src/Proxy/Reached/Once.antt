-- ===== src/Proxy/Reached/Once.antt =====
-- One token before `request_filter` of proxy/src/main.rs, over runs of single steps.
use den_browser.Prelude.{ℕ, ◌≤◌, ◌≡◌, ◌≢◌, refl, ap, ◌∙◌, sym, List, [], ◌∷◌, ◌++◌, All, none, some}
use den_browser.Audit.Record.{Action}
use den_browser.Audit.Request.{RequestAudit}
use den_browser.Attest.Window.{SystemTime, Instant, unix_now}
use den_browser.Attest.NonceCache.{NonceCache, default}
use den_browser.Attest.Verifier.{PhaseOne, commit_nonce}
use den_browser.Attest.Replay.{Attempt, attempt, run}
use den_browser.Proxy.Http.{Session, header_str, token_header}
use den_browser.Proxy.State.{Deps, Meets, DenBrowserProxy, Shared}
use den_browser.Proxy.Filter.{request_filter}
use den_browser.Proxy.OneUse.{Clocks, forwarded_once_any}
use den_browser.Proxy.Reached.{Step, charged, resolved, committed, Run, start, then}

run-append :
    (c : NonceCache) (xs : List Attempt) (a : Attempt)
    → run c (xs ++ (a ∷ [])) ≡ (attempt (run c xs) a).0
unfolding run
run-append c [] a = refl
run-append c (x ∷ xs) a = run-append (attempt c x).0 xs a

All-append :
    (P : Attempt → Type 0) (xs : List Attempt) (a : Attempt)
    → All P xs
    → P a
    → All P (xs ++ (a ∷ []))
All-append P [] a h p = (p, tt)
All-append P (x ∷ xs) a h p = (h.0, All-append P xs a h.1 p)

-- A wall clock from before the epoch reads as the epoch.
abbrev since : SystemTime → ℕ
since none = 0
since (some e) = e

commit_nonce-since :
    (c : NonceCache) (p1 : PhaseOne) (wall : SystemTime) (at_ : Instant)
    → commit_nonce c p1 wall at_ ≡ commit_nonce c p1 (some (since wall)) at_
unfolding commit_nonce unix_now
commit_nonce-since c p1 none at_ = refl
commit_nonce-since c p1 (some e) at_ = refl

module _ (deps : Deps) (proxy : DenBrowserProxy deps) where
  -- The commits of a run, none of which is later than its bound.
  pub record Commits (until : Instant) (x y : Shared deps) : Type 0 where
    pub attempts : List Attempt
    pub in_time : All (λ a. a.at ≤ until) attempts
    pub reached : y.nonces ≡ run x.nonces attempts

  Step-Commits :
      {until : Instant} (x y z : Shared deps)
      → Commits until x y
      → Step deps proxy until y z
      → Commits until x z
  Step-Commits x y z c (charged limiter ip target on moved) = record {
    attempts = c.attempts;
    in_time = c.in_time;
    reached = ap (λ s. s.nonces) moved ∙ c.reached;
  }
  Step-Commits x y z c (resolved mi host answer swept answered on moved) = record {
    attempts = c.attempts;
    in_time = c.in_time;
    reached = ap (λ s. s.nonces) moved ∙ c.reached;
  }
  Step-Commits {until} x y z c (committed p1 wall at_ order moved) =
      let a : Attempt = record { p1 = p1; since_epoch = since wall; at = at_ } in
      record {
        attempts = c.attempts ++ (a ∷ []);
        in_time = All-append (λ a. a.at ≤ until) c.attempts a c.in_time order;
        reached =
            ap (λ s. s.nonces) moved
            ∙ ap (λ r. r.0) (commit_nonce-since y.nonces p1 wall at_)
            ∙ ap (λ n. (attempt n a).0) c.reached
            ∙ sym (run-append x.nonces c.attempts a);
      }

  pub Run-Commits :
      {until : Instant} (x y : Shared deps) → Run deps proxy until x y → Commits until x y
  unfolding run
  Run-Commits x _ start = record { attempts = []; in_time = tt; reached = refl }
  Run-Commits x _ (then y z steps step) = Step-Commits x y z (Run-Commits x y steps) step

  -- Of two calls with one token, the second is not forwarded if the first was, where the first
  -- commits to a state that was reached from an empty cache of nonces, and the second to one that
  -- was reached from where the first has left it.
  pub reached_once :
      {until : Instant} (from : Shared deps) (m n : Meets (Shared deps)) (a b : Shared deps)
      (c d : RequestAudit) (s t : Session)
      → from.nonces ≡ default
      → ((x : Shared deps) → Run deps proxy until from (m.before_commit x))
      → ((x : Shared deps)
          → Run deps proxy n.at (request_filter deps proxy m a c s).shared (n.before_commit x))
      → Clocks deps proxy m n
      → header_str s.req_header.headers token_header ≡ header_str t.req_header.headers token_header
      → (request_filter deps proxy m a c s).ctx.action ≡ some Action.forward
      → (request_filter deps proxy n b d t).ctx.action ≢ some Action.forward
  reached_once from m n a b c d s t empty found left clocks same first =
      let after = (request_filter deps proxy m a c s).shared in
      let one = λ (x : Shared deps). Run-Commits from (m.before_commit x) (found x) in
      let two = λ (x : Shared deps). Run-Commits after (n.before_commit x) (left x) in
      forwarded_once_any deps proxy m n a b c d s t (λ x. (one x).attempts) (λ x. (two x).attempts)
        (λ x. (one x).reached ∙ ap (λ k. run k (one x).attempts) empty) (λ x. (two x).reached)
        (λ x. (two x).in_time) clocks same first
