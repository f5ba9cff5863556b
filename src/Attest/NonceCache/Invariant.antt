-- ===== src/Attest/NonceCache/Invariant.antt =====
-- The set and the queue of `NonceCache` (proxy/src/attest.rs) hold the same nonces, each once.
use den_browser.Prelude.{
  ℕ, ◌+◌, ◌≡◌, refl, ◌||◌, false, List, [], ◌∷◌, ◌++◌, arith, ◌==◌, eq_iff, contains as mem, remove,
  contains-remove_self, contains-remove_ne, nat_eq, list_eq, Bool-cases, inl, inr,
}
use den_browser.Attest.Window.{Instant}
use den_browser.Attest.NonceCache.{
  NonceCache, Nonce, default, evict_loop, evict_expired, insert, commit,
}

abbrev pub Queue : Type 0
Queue = List (Nonce × Instant)

abbrev pub nonces : Queue → List Nonce
nonces [] = []
nonces ((n, t) ∷ q) = n ∷ nonces q

abbrev pub IsDistinct : Queue → Type 0
IsDistinct [] = Unit {0}
IsDistinct ((n, t) ∷ q) = (mem n (nonces q) ≡ false) × IsDistinct q

abbrev pub Agrees : List Nonce → Queue → Type 0
Agrees seen q = (n : Nonce) → mem n seen ≡ mem n (nonces q)

pub record Inv (c : NonceCache) : Type 0 where
  pub agrees : Agrees c.seen c.expiry
  pub distinct : IsDistinct c.expiry

pub default-Inv : Inv default
default-Inv = record { agrees = λ n. refl; distinct = tt }

-- Taking the front of the queue off both sides.
pop-Agrees :
    (n : Nonce) (t : Instant) (seen : List Nonce) (q : Queue)
    → Agrees seen ((n, t) ∷ q)
    → mem n (nonces q) ≡ false
    → Agrees (remove n seen) q
unfolding mem
pop-Agrees n t seen q h fresh m = elim (Bool-cases (n == m)) [
  | inl e ↦
      let same : n ≡ m = (eq_iff n m).0 e in rw (← same) (cc (contains-remove_self n seen, fresh))
  | inr e ↦ ground (
    arith,
    h m,
    eq_iff n m,
    contains-remove_ne n m seen (λ (p : n ≡ m). ground (arith, eq_iff n m)),
  )
]

pub evict_loop-Inv :
    (now : Instant) (evicted : ℕ) (seen : List Nonce) (q : Queue)
    → Agrees seen q
    → IsDistinct q
    → Inv (evict_loop now evicted seen q)
unfolding evict_loop
evict_loop-Inv now evicted seen [] h d = record { agrees = h; distinct = tt }
evict_loop-Inv now evicted seen ((n, t) ∷ q) h d =
    ground
      (arith, evict_loop-Inv now (evicted + 1) (remove n seen) q (pop-Agrees n t seen q h d.0) d.1)

mem-append :
    (m n : Nonce) (t : Instant) (q : Queue)
    → mem m (nonces (q ++ (n, t) ∷ [])) ≡ (n == m || mem m (nonces q))
unfolding mem
mem-append m n t [] = ground arith
mem-append m n t ((k, u) ∷ q) = ground (arith, mem-append m n t q)

IsDistinct-append :
    (n : Nonce) (t : Instant) (q : Queue)
    → mem n (nonces q) ≡ false
    → IsDistinct q
    → IsDistinct (q ++ (n, t) ∷ [])
unfolding mem
IsDistinct-append n t [] h d = (refl, tt)
IsDistinct-append n t ((k, u) ∷ q) h d = (
  rw (mem-append k n t q) (ground (arith, d.0, eq_iff k n, eq_iff n k)),
  IsDistinct-append n t q (ground arith) d.1,
)

insert-Inv : (c : NonceCache) (n : Nonce) (t : Instant) → Inv c → Inv (insert c n t).0
unfolding insert mem
insert-Inv c n t v = elim (Bool-cases (mem n c.seen)) [
  | inl old ↦ rw (old, insert) v
  | inr fresh ↦
      rw (fresh, insert)
        (record {
          agrees = λ m. rw (mem-append m n t c.expiry) (ground (arith, v.agrees m));
          distinct = IsDistinct-append n t c.expiry (ground (arith, v.agrees n)) v.distinct;
        })
]

-- Whether it accepts or refuses, `commit` keeps the set and the queue in step.
pub commit-Inv : (c : NonceCache) (n : Nonce) (now : Instant) → Inv c → Inv (commit c n now).0
unfolding commit evict_expired
commit-Inv c n now v =
    insert-Inv (evict_expired c now) n now
      (evict_loop-Inv now 0 c.seen c.expiry v.agrees v.distinct)
