-- ===== src/Machine/DnsCache/Sweep.antt =====
-- The DNS cache of proxy/src/machine.rs as a map: one entry for a host, `store` sets it and forgets
-- what is too old to be of use.
use den_browser.Prelude.{
  ℕ, ◌+◌, ◌<◌, ◌≡◌, ◌≢◌, refl, List, [], ◌∷◌, Option, none, some, Text, ltb, ◌==◌, eq_iff, list_eq,
  nat_eq, if◌then◌else◌, arith, eq_refl, ◌≤◌, Bool-cases, inl, inr, ◌∙◌,
}
use den_browser.Net.{IpAddr}
use den_browser.Attest.Window.{Instant}
use den_browser.Machine.DnsCache.{CacheEntry, Cache, Ttls, elapsed, get, retain, insert, store}

-- No host has two entries, as in a map.
abbrev pub IsMap : Cache → Type 0
IsMap [] = Unit {0}
IsMap ((h, e) ∷ cache) = (get h cache ≡ none) × IsMap cache

-- Every entry is younger than `keep`.
abbrev pub IsYoung : ℕ → Instant → Cache → Type 0
IsYoung keep now [] = Unit {0}
IsYoung keep now ((h, e) ∷ cache) = (elapsed e now < keep) × IsYoung keep now cache

-- An entry, unless it is too old.
abbrev pub young : ℕ → Instant → Option CacheEntry → Option CacheEntry
young keep now none = none
young keep now (some e) = if ltb (elapsed e now) keep then some e else none

get-retain :
    (keep : ℕ) (now : Instant) (host : Text) (cache : Cache)
    → IsMap cache
    → get host (retain keep now cache) ≡ young keep now (get host cache)
unfolding get retain
get-retain keep now host [] m = refl
get-retain keep now host ((h, e) ∷ cache) m =
    ground (arith, get-retain keep now host cache m.1, m.0, eq_iff h host)

pub retain-IsMap :
    (keep : ℕ) (now : Instant) (cache : Cache) → IsMap cache → IsMap (retain keep now cache)
unfolding get retain
retain-IsMap keep now [] m = tt
retain-IsMap keep now ((h, e) ∷ cache) m =
    ground (arith, get-retain keep now h cache m.1, m.0, retain-IsMap keep now cache m.1)

retain-IsYoung :
    (keep : ℕ) (now : Instant) (cache : Cache) → IsYoung keep now (retain keep now cache)
unfolding retain
retain-IsYoung keep now [] = tt
retain-IsYoung keep now ((h, e) ∷ cache) = ground (arith, retain-IsYoung keep now cache)

get-insert_self :
    (host : Text) (e : CacheEntry) (cache : Cache) → get host (insert host e cache) ≡ some e
unfolding get insert
get-insert_self host e [] = ground (arith, eq_refl host)
get-insert_self host e ((h, d) ∷ cache) =
    ground (arith, eq_iff h host, get-insert_self host e cache)

get-insert_other :
    (host other : Text) (e : CacheEntry) (cache : Cache)
    → host ≢ other
    → get other (insert host e cache) ≡ get other cache
unfolding get insert
get-insert_other host other e [] ne = ground (arith, eq_iff host other)
get-insert_other host other e ((h, d) ∷ cache) ne =
    ground (arith, eq_iff h host, eq_iff h other, get-insert_other host other e cache ne)

pub insert-IsMap :
    (host : Text) (e : CacheEntry) (cache : Cache) → IsMap cache → IsMap (insert host e cache)
unfolding get insert
insert-IsMap host e [] m = (refl, tt)
insert-IsMap host e ((h, d) ∷ cache) m =
    ground (arith, eq_iff h host, insert-IsMap host e cache m.1, get-insert_other host h e cache, m)

insert-IsYoung :
    (keep : ℕ) (now : Instant) (host : Text) (e : CacheEntry) (cache : Cache)
    → elapsed e now < keep
    → IsYoung keep now cache
    → IsYoung keep now (insert host e cache)
unfolding insert
insert-IsYoung keep now host e [] fresh y = (fresh, tt)
insert-IsYoung keep now host e ((h, d) ∷ cache) fresh y =
    ground (arith, insert-IsYoung keep now host e cache fresh y.1)

-- If the cache was a map, the clock did not go back between the sweep and the insertion and the two
-- periods are not both zero, then after `store` the cache is a map again, and none of its entries
-- is, at the time of the sweep, older than the grace period allows.
pub store-IsMap :
    (ttls : Ttls) (cache : Cache) (host : Text) (addrs : List IpAddr) (swept now : Instant)
    → IsMap cache
    → swept ≤ now
    → 0 < ttls.dns_ttl + ttls.dns_stale_grace
    → IsMap (store ttls cache host addrs swept now)
      × IsYoung (ttls.dns_ttl + ttls.dns_stale_grace) swept (store ttls cache host addrs swept now)
unfolding store
store-IsMap ttls cache host addrs swept now m order some_time =
    let keep = ttls.dns_ttl + ttls.dns_stale_grace in
    let entry : CacheEntry = record { addrs = addrs; fetched = now } in
    (
      insert-IsMap host entry (retain keep swept cache) (retain-IsMap keep swept cache m),
      insert-IsYoung keep swept host entry (retain keep swept cache) (omega arith)
          (retain-IsYoung keep swept cache),
    )

-- What a host has after `store` on a cache that is a map: the new answer if it is the host stored,
-- and otherwise its entry of before, unless that was too old.
pub get-store :
    (ttls : Ttls) (cache : Cache) (host other : Text) (addrs : List IpAddr) (swept now : Instant)
    → IsMap cache
    → get other (store ttls cache host addrs swept now) ≡ (
        if host == other
        then some (record { addrs = addrs; fetched = now })
        else young (ttls.dns_ttl + ttls.dns_stale_grace) swept (get other cache))
unfolding store
get-store ttls cache host other addrs swept now m =
    let keep = ttls.dns_ttl + ttls.dns_stale_grace in
    let entry : CacheEntry = record { addrs = addrs; fetched = now } in
    let kept = retain keep swept cache in
    elim (Bool-cases (host == other)) [
      | inl same ↦
          let e = (eq_iff host other).0 same in rw (same, ← e) (get-insert_self host entry kept)
      | inr different ↦ rw different (
          get-insert_other host other entry kept (λ e. let hit = (eq_iff host other).1 e in cc)
          ∙ get-retain keep swept other cache m)
    ]
