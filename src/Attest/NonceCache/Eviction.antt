-- ===== src/Attest/NonceCache/Eviction.antt =====
-- What `evict_expired` of proxy/src/attest.rs drops, and what stays in the cache.
use Prim.Native.Nat.{min}
use den_browser.Prelude.{
  ℕ, zero, suc, ◌+◌, ◌-◌, ◌≤◌, ◌<◌, ◌≡◌, refl, sym, ◌∙◌, Bool, true, false, ◌||◌, List, [], ◌∷◌,
  ◌++◌, arith, ◌==◌, eq_iff, contains as mem, remove, nat_eq, list_eq, Option, none, some, ltb,
  drop, if◌then◌else◌, Bool-cases, inl, inr,
}
use den_browser.Prelude.Result.{ok}
use den_browser.Attest.Window.{Instant, nonce_ttl}
use den_browser.Attest.NonceCache.{
  NonceCache, Nonce, max_evictions_per_commit, evict_loop, evict_expired, insert, commit,
}
use den_browser.Attest.NonceCache.Invariant.{Queue, nonces, Inv, evict_loop-Inv}

-- When a nonce was committed, by the queue.
pub committed_at : Nonce → Queue → Option Instant
committed_at n [] = none
committed_at n ((k, t) ∷ q) = if k == n then some t else committed_at n q

pub mem-committed_at :
    (n : Nonce) (t : Instant) (q : Queue) → committed_at n q ≡ some t → mem n (nonces q) ≡ true
unfolding committed_at mem
mem-committed_at n t [] h = cc
mem-committed_at n t ((k, u) ∷ q) h = ground (arith, mem-committed_at n t q)

-- An entry younger than the time to live survives.
evict_loop_keeps :
    (n : Nonce) (t now : Instant) (evicted : ℕ) (seen : List Nonce) (q : Queue)
    → now < t + nonce_ttl
    → committed_at n q ≡ some t
    → committed_at n (evict_loop now evicted seen q).expiry ≡ some t
unfolding evict_loop committed_at
evict_loop_keeps n t now evicted seen [] young h = h
evict_loop_keeps n t now evicted seen ((k, u) ∷ q) young h =
    ground (arith, evict_loop_keeps n t now (evicted + 1) (remove k seen) q young)

committed_at-append :
    (n m : Nonce) (t u : Instant) (q : Queue)
    → committed_at n q ≡ some t
    → committed_at n (q ++ (m, u) ∷ []) ≡ some t
unfolding committed_at
committed_at-append n m t u [] h = cc
committed_at-append n m t u ((k, v) ∷ q) h = ground (arith, committed_at-append n m t u q)

committed_at-append_self :
    (n : Nonce) (u : Instant) (q : Queue)
    → mem n (nonces q) ≡ false
    → committed_at n (q ++ (n, u) ∷ []) ≡ some u
unfolding committed_at mem
committed_at-append_self n u [] h = ground (arith, eq_iff n n)
committed_at-append_self n u ((k, v) ∷ q) h = ground (arith, committed_at-append_self n u q)

-- A committed nonce keeps its time through any commit that comes before it has aged out.
pub commit_keeps :
    (c : NonceCache) (n m : Nonce) (t now : Instant)
    → now < t + nonce_ttl
    → committed_at n c.expiry ≡ some t
    → committed_at n (commit c m now).0.expiry ≡ some t
unfolding commit insert evict_expired
commit_keeps c n m t now young h = ground (
  arith,
  evict_loop_keeps n t now 0 c.seen c.expiry young h,
  committed_at-append n m t now (evict_loop now 0 c.seen c.expiry).expiry,
)

-- An accepted commit records the nonce at its own time.
pub commit_records :
    (c : NonceCache) (n : Nonce) (now : Instant)
    → Inv c
    → (commit c n now).1 ≡ ok tt
    → committed_at n (commit c n now).0.expiry ≡ some now
unfolding commit insert evict_expired
commit_records c n now v h =
    let kept = evict_loop-Inv now 0 c.seen c.expiry v.agrees v.distinct in
    ground (
      arith,
      kept.agrees n,
      committed_at-append_self n now (evict_loop now 0 c.seen c.expiry).expiry,
    )

-- Commit order: instants do not fall along the queue, and none is later than `now`.
abbrev pub IsOrdered : Instant → Queue → Instant → Type 0
IsOrdered from [] now = from ≤ now
IsOrdered from ((n, t) ∷ q) now = (from ≤ t) × IsOrdered t q now

abbrev pub is_aged : Instant → Instant → Bool
is_aged now t = if ltb (now - t) nonce_ttl then false else true

pub count_aged : Instant → Queue → ℕ
count_aged now [] = 0
count_aged now ((n, t) ∷ q) = if is_aged now t then suc (count_aged now q) else count_aged now q

count_aged_young :
    (now from : Instant) (q : Queue)
    → now < from + nonce_ttl
    → IsOrdered from q now
    → count_aged now q ≡ 0
unfolding count_aged
count_aged_young now from [] young h = refl
count_aged_young now from ((n, t) ∷ q) young h =
    ground (arith, count_aged_young now t q (omega arith) h.1)

module _ {ℓ} {A : Type ℓ} where
  drop-nil : (k : ℕ) → drop {A = A} k [] ≡ []
  drop-nil zero = refl
  drop-nil (suc k) = refl

  drop_none : (k : ℕ) (xs : List A) → k ≡ 0 → drop k xs ≡ xs
  drop_none zero xs h = refl
  drop_none (suc k) xs h = absurd (omega arith)

  drop_one : (k j : ℕ) (x : A) (xs : List A) → k ≡ suc j → drop k (x ∷ xs) ≡ drop j xs
  drop_one k j x xs h = rw h

-- The loop stops at the first entry that has not aged out, or when the budget is spent.
evict_loop-drop :
    (now from : Instant) (evicted : ℕ) (seen : List Nonce) (q : Queue)
    → evicted ≤ max_evictions_per_commit
    → IsOrdered from q now
    → (evict_loop now evicted seen q).expiry
      ≡ drop (min (max_evictions_per_commit - evicted) (count_aged now q)) q
unfolding evict_loop count_aged
evict_loop-drop now from evicted seen [] le h = simp drop-nil
evict_loop-drop now from evicted seen ((n, t) ∷ q) le h =
    let budget = max_evictions_per_commit - evicted in
    let aged = count_aged now ((n, t) ∷ q) in
    elim (Bool-cases (evicted == max_evictions_per_commit || ltb (now - t) nonce_ttl)) [
      | inl stop ↦ sym (
          rw stop
            (drop_none (min budget aged) ((n, t) ∷ q) (ground (arith, count_aged_young now t q))))
      | inr go ↦
          let rest = evict_loop-drop now t (evicted + 1) (remove n seen) q (ground arith) h.1 in
          let left = min (max_evictions_per_commit - (evicted + 1)) (count_aged now q) in
          rw go (rest ∙ sym (drop_one (min budget aged) left (n, t) q (ground arith)))
    ]

-- With instants in order along the queue, one commit drops exactly the entries that have aged out,
-- oldest first, and 256 of them at most.
pub evict_expired-drop :
    (c : NonceCache) (now from : Instant)
    → IsOrdered from c.expiry now
    → (evict_expired c now).expiry
      ≡ drop (min max_evictions_per_commit (count_aged now c.expiry)) c.expiry
unfolding evict_expired
evict_expired-drop c now from h = evict_loop-drop now from 0 c.seen c.expiry (omega arith) h

IsOrdered-weaken :
    (from from' now : Instant) (q : Queue)
    → from' ≤ from
    → IsOrdered from q now
    → IsOrdered from' q now
IsOrdered-weaken from from' now [] le h = omega arith
IsOrdered-weaken from from' now ((n, t) ∷ q) le h = (omega arith, h.1)

evict_loop-IsOrdered :
    (now from last : Instant) (evicted : ℕ) (seen : List Nonce) (q : Queue)
    → IsOrdered from q last
    → IsOrdered from (evict_loop now evicted seen q).expiry last
unfolding evict_loop
evict_loop-IsOrdered now from last evicted seen [] h = h
evict_loop-IsOrdered now from last evicted seen ((n, t) ∷ q) h =
    let rest = evict_loop-IsOrdered now t last (evicted + 1) (remove n seen) q h.1 in
    elim (Bool-cases (evicted == max_evictions_per_commit || ltb (now - t) nonce_ttl)) [
      | inl stop ↦ rw stop h
      | inr go ↦ rw go (IsOrdered-weaken t from last _ h.0 rest)
    ]

IsOrdered-append :
    (from last now : Instant) (n : Nonce) (q : Queue)
    → last ≤ now
    → IsOrdered from q last
    → IsOrdered from (q ++ (n, now) ∷ []) now
IsOrdered-append from last now n [] le h = (omega arith, omega arith)
IsOrdered-append from last now n ((k, t) ∷ q) le h = (h.0, IsOrdered-append t last now n q le h.1)

IsOrdered-later :
    (from last now : Instant) (q : Queue)
    → last ≤ now
    → IsOrdered from q last
    → IsOrdered from q now
IsOrdered-later from last now [] le h = omega arith
IsOrdered-later from last now ((k, t) ∷ q) le h = (h.0, IsOrdered-later t last now q le h.1)

-- Commits whose instants do not fall keep the queue in time order.
pub commit-IsOrdered :
    (c : NonceCache) (n : Nonce) (from last now : Instant)
    → last ≤ now
    → IsOrdered from c.expiry last
    → IsOrdered from (commit c n now).0.expiry now
unfolding commit insert evict_expired
commit-IsOrdered c n from last now le h =
    let kept = evict_loop now 0 c.seen c.expiry in
    let ordered = evict_loop-IsOrdered now from last 0 c.seen c.expiry h in
    elim (Bool-cases (mem n kept.seen)) [
      | inl old ↦ rw (old, insert) (IsOrdered-later from last now kept.expiry le ordered)
      | inr fresh ↦ rw (fresh, insert) (IsOrdered-append from last now n kept.expiry le ordered)
    ]
