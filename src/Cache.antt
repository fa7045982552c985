-- ===== src/Cache.antt =====
-- src/cache/mod.rs: compiled entries by domain, with a time to live. Times are nanoseconds since the
-- epoch; a method takes what `Utc::now()` returns as an argument, and the mutating ones return the
-- new cache. The list is the order in which the `DashMap` is walked, which is not specified.
pub mod Expiry
pub mod Steps
pub mod Agreement
pub mod Races
pub mod Refinement
use rfo_protocol.Base.{
  ℕ, zero, suc, ◌-◌, ◌/◌, Bool, true, false, Option, none, some, List, [], ◌∷◌, Text, leb, ◌==◌,
  if◌then◌else◌, length,
}
use rfo_protocol.Base.Int.{ℤ, pos, negsuc, ltb_ℤ}
use rfo_protocol.Base.Keys.{Assoc, text_eq, retain}
use rfo_protocol.Base.Keys
use rfo_protocol.Base.Strings
use rfo_protocol.Payloads.{CacheEntry}

pub record RfoCache : Type 0 where
  pub inner : Assoc Text CacheEntry
  pub ttl_seconds : ℤ

-- `RfoCache::new`, with five minutes.
unfoldable pub new_cache : RfoCache
new_cache = record { inner = []; ttl_seconds = pos 300 }

unfoldable pub with_ttl : ℤ → RfoCache
with_ttl ttl_seconds = record { inner = []; ttl_seconds = ttl_seconds }

negate : ℕ → ℤ
negate zero = pos 0
negate (suc n) = negsuc n

-- `now.signed_duration_since(cached_at).num_seconds()`, whole seconds towards zero.
pub age_seconds : ℕ → ℕ → ℤ
unfolding negate
age_seconds cached_at now =
    if leb cached_at now
    then pos ((now - cached_at) / 1_000_000_000)
    else negate ((cached_at - now) / 1_000_000_000)

unfoldable pub is_fresh : ℤ → ℕ → CacheEntry → Bool
unfolding age_seconds
is_fresh ttl_seconds now entry = ltb_ℤ (age_seconds entry.cached_at now) ttl_seconds

unfoldable pub insert : RfoCache → Text → CacheEntry → RfoCache
insert c key entry = record c { inner = Keys.insert key entry c.inner }

unfoldable pub remove : RfoCache → Text → Option CacheEntry × RfoCache
remove c key = (Keys.lookup key c.inner, record c { inner = Keys.remove key c.inner })

-- The part of `get` that holds the guard of the entry: the answer, and whether it is none because the
-- entry has expired.
unfoldable pub look : RfoCache → Text → ℕ → Option CacheEntry × Bool
look c key now = elim (Keys.lookup key c.inner) [
  | none ↦ (none, false)
  | some entry ↦ if is_fresh c.ttl_seconds now entry then (some entry, false) else (none, true)
]

-- `get` where no other call comes between `look` and the removal of an expired entry. The guard is
-- dropped before the removal, so calls of other threads may; `Cache.Steps` has the two apart.
unfoldable pub get : RfoCache → Text → ℕ → Option CacheEntry × RfoCache
unfolding remove
get c key now = elim (Keys.lookup key c.inner) [
  | none ↦ (none, c)
  | some entry ↦
      if is_fresh c.ttl_seconds now entry then (some entry, c) else (none, (remove c key).1)
]

-- `for entry in self.inner.iter()`, with one time for the readings of the clock in the loop.
unfoldable pub first_match : RfoCache → Text → ℕ → Assoc Text CacheEntry → Option CacheEntry
first_match c domain now [] = none
first_match c domain now ((key, entry) ∷ rest) =
    let others = first_match c domain now rest in
    if Strings.contains key domain
    then (if is_fresh c.ttl_seconds now entry then some entry else others)
    else others

unfoldable pub get_by_domain : RfoCache → Text → ℕ → Option CacheEntry
get_by_domain c domain now = first_match c domain now c.inner

unfoldable pub contains : RfoCache → Text → Bool
contains c key = elim (Keys.lookup key c.inner) [ some entry ↦ true | none ↦ false ]

unfoldable pub cleanup_expired : RfoCache → ℕ → RfoCache
cleanup_expired c now = record c {
  inner = retain (λ key entry. is_fresh c.ttl_seconds now entry) c.inner;
}

unfoldable pub len : RfoCache → ℕ
len c = length c.inner

unfoldable pub is_empty : RfoCache → Bool
is_empty c = length c.inner == 0

unfoldable pub clear : RfoCache → RfoCache
clear c = record c { inner = [] }
