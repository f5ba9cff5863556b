-- ===== src/Machine/DnsCache.antt =====
-- The DNS cache of proxy/src/machine.rs. `resolve_cached` takes the lock twice, and the resolver
-- answers in between; each function here is one step under the lock, and the readings of the
-- monotonic clock are arguments.
pub mod Sweep
use den_browser.Prelude.{
  ℕ, ◌+◌, ◌-◌, Bool, true, false, not, ◌&&◌, List, [], ◌∷◌, Option, none, some, Text, ltb, ◌==◌,
  list_eq, nat_eq, if◌then◌else◌,
}
use den_browser.Net.{IpAddr}
use den_browser.Attest.Window.{Instant}

pub record CacheEntry : Type 0 where
  pub addrs : List IpAddr
  pub fetched : Instant

-- The map as the list of its entries.
abbrev pub Cache : Type 0
Cache = List (Text × CacheEntry)

-- The three durations of `MachineIdentity`, in nanoseconds.
pub record Ttls : Type 0 where
  pub dns_ttl : ℕ
  pub dns_negative_ttl : ℕ
  pub dns_stale_grace : ℕ

unfoldable pub is_negative : CacheEntry → Bool
is_negative e = elim e.addrs [ [] ↦ true | _ ∷ _ ↦ false ]

-- `Instant::elapsed`, which saturates at zero.
abbrev pub elapsed : CacheEntry → Instant → ℕ
elapsed e now = now - e.fetched

unfoldable pub get : Text → Cache → Option CacheEntry
get host [] = none
get host ((h, e) ∷ cache) = let later = get host cache in if h == host then some e else later

-- The fast path.
unfoldable pub fresh : Ttls → Cache → Text → Instant → Option (List IpAddr)
unfolding is_negative
fresh ttls cache host now = elim (get host cache) [
  | none ↦ none
  | some e ↦
      let ttl = if is_negative e then ttls.dns_negative_ttl else ttls.dns_ttl in
      if ltb (elapsed e now) ttl then some e.addrs else none
]

-- The last good answer, while the resolver fails.
unfoldable pub stale : Ttls → Cache → Text → Instant → Option (List IpAddr)
unfolding is_negative
stale ttls cache host now = elim (get host cache) [
  | none ↦ none
  | some e ↦
      if not (is_negative e) && ltb (elapsed e now) (ttls.dns_ttl + ttls.dns_stale_grace)
      then some e.addrs
      else none
]

unfoldable pub retain : ℕ → Instant → Cache → Cache
retain keep now [] = []
retain keep now ((h, e) ∷ cache) =
    let later = retain keep now cache in if ltb (elapsed e now) keep then (h, e) ∷ later else later

unfoldable pub insert : Text → CacheEntry → Cache → Cache
insert host e [] = (host, e) ∷ []
insert host e ((h, d) ∷ cache) =
    let later = insert host e cache in if h == host then (h, e) ∷ cache else (h, d) ∷ later

-- `store`, with the clock as the sweep and as the new entry read it.
unfoldable pub store : Ttls → Cache → Text → List IpAddr → Instant → Instant → Cache
store ttls cache host addrs swept now =
    insert host (record { addrs = addrs; fetched = now })
      (retain (ttls.dns_ttl + ttls.dns_stale_grace) swept cache)

-- What the resolver answers; `none` is its error.
abbrev pub Answer : Type 0
Answer = Option (List IpAddr)

-- The step after the resolver has answered.
unfoldable pub settle :
    Ttls → Cache → Text → Answer → Instant → Instant → Cache × Option (List IpAddr)
settle ttls cache host (some addrs) swept now = (store ttls cache host addrs swept now, some addrs)
settle ttls cache host none swept now = (cache, stale ttls cache host now)
