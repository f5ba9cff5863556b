-- ===== src/Attest/NonceCache.antt =====
-- `NonceCache` of proxy/src/attest.rs: the nonces committed within the last `nonce_ttl`.
pub mod Invariant
pub mod Eviction
use den_browser.Prelude.{
  ℕ, zero, suc, ◌+◌, ◌-◌, ◌≡◌, Bool, true, false, ◌||◌, List, [], ◌∷◌, ◌++◌, Bytes, ◌==◌, ltb,
  contains as mem, remove, if◌then◌else◌, nat_eq, list_eq,
}
use den_browser.Prelude.Result.{Result, ok, err}
use den_browser.Attest.Error.{AttestError, nonce_replay}
use den_browser.Attest.Window.{Instant, nonce_ttl}

abbrev pub Nonce : Type 0
Nonce = Bytes

abbrev pub max_evictions_per_commit : ℕ
max_evictions_per_commit = 256

-- The `HashSet` is a list without order, and the front of the `VecDeque` is the head of a list.
pub record NonceCache : Type 0 where
  pub seen : List Nonce
  pub expiry : List (Nonce × Instant)

abbrev pub default : NonceCache
default = record { seen = []; expiry = [] }

unfoldable pub contains : NonceCache → Nonce → Bool
contains c nonce = mem nonce c.seen

-- The `while` loop of `evict_expired`, over the queue and the set.
unfoldable pub evict_loop : Instant → ℕ → List Nonce → List (Nonce × Instant) → NonceCache
evict_loop now evicted seen [] = record { seen = seen; expiry = [] }
evict_loop now evicted seen ((nonce, committed) ∷ rest) =
    let popped = evict_loop now (evicted + 1) (remove nonce seen) rest in
    if evicted == max_evictions_per_commit || ltb (now - committed) nonce_ttl
    then record { seen = seen; expiry = (nonce, committed) ∷ rest }
    else popped

-- `duration_since` is 0 for a later instant, as `-` is.
unfoldable pub evict_expired : NonceCache → Instant → NonceCache
evict_expired c now = evict_loop now 0 c.seen c.expiry

insert : NonceCache → Nonce → Instant → NonceCache × Result (Unit {0}) AttestError
insert c nonce now =
    if mem nonce c.seen
    then (c, err nonce_replay)
    else (record { seen = nonce ∷ c.seen; expiry = c.expiry ++ (nonce, now) ∷ [] }, ok tt)

-- The state stays evicted when the nonce is refused.
unfoldable pub commit : NonceCache → Nonce → Instant → NonceCache × Result (Unit {0}) AttestError
unfolding insert
commit c nonce now = insert (evict_expired c now) nonce now
