-- ===== src/Cache/Expiry.antt =====
-- What a client of src/cache/mod.rs can see: the entries that are fresh. Expired entries may still lie
-- in the map until a read, in one step here, or the background cleanup drops them, which nobody can see.
use rfo_protocol.Base.{
  ℕ, zero, suc, ◌+◌, ◌-◌, ◌/◌, ◌≤◌, ◌≡◌, refl, subst, false, Option, none, some, arith, Text,
  if◌then◌else◌, Option-cases, Bool-cases, inl, inr,
}
use rfo_protocol.Base.Int.{ℤ, pos_part, neg_part}
use rfo_protocol.Base.Keys.{
  text_eq, text_beq, text_beq_iff, lookup, lookup-insert, lookup-remove, lookup-retain, Distinct,
  kept,
}
use rfo_protocol.Payloads.{CacheEntry}
use rfo_protocol.Cache.{
  RfoCache, negate, age_seconds, is_fresh, insert, remove, get, cleanup_expired,
}

-- What a lookup shows: a fresh entry.
unfoldable pub fresh_only : ℤ → ℕ → Option CacheEntry → Option CacheEntry
fresh_only ttl now none = none
fresh_only ttl now (some entry) = if is_fresh ttl now entry then some entry else none

-- The fresh entry of a key, at a time.
unfoldable pub view : RfoCache → ℕ → Text → Option CacheEntry
unfolding fresh_only
view c now key = fresh_only c.ttl_seconds now (lookup key c.inner)

negate_parts : (n : ℕ) → (pos_part (negate n) ≡ 0) × (neg_part (negate n) ≡ n)
unfolding negate
negate_parts zero = (refl, refl)
negate_parts (suc n) = (refl, refl)

-- Ages only grow.
age_grows :
    (cached now later : ℕ)
    → now ≤ later
    → pos_part (age_seconds cached now) + neg_part (age_seconds cached later)
      ≤ pos_part (age_seconds cached later) + neg_part (age_seconds cached now)
unfolding age_seconds
age_grows cached now later h = ground (
  arith,
  negate_parts ((cached - now) / 1_000_000_000),
  negate_parts ((cached - later) / 1_000_000_000),
)

-- What is stale stays stale.
pub stale_after :
    (ttl : ℤ) (now later : ℕ) (entry : CacheEntry)
    → now ≤ later
    → is_fresh ttl now entry ≡ false
    → is_fresh ttl later entry ≡ false
unfolding is_fresh
stale_after ttl now later entry h f = ground (arith, age_grows entry.cached_at now later h)

-- A read returns the fresh entry of its key, if there is one.
pub get-view : (c : RfoCache) (key : Text) (now : ℕ) → (get c key now).0 ≡ view c now key
unfolding get view
get-view c key now = elim (Option-cases (lookup key c.inner)) [
  | inl e ↦ rw (e, get)
  | inr (entry, e) ↦ rw (e, get) (ground arith)
]

dropped :
    (c : RfoCache) (key j : Text) (now later : ℕ) (entry : CacheEntry)
    → now ≤ later
    → lookup key c.inner ≡ some entry
    → is_fresh c.ttl_seconds now entry ≡ false
    → view (remove c key).1 later j ≡ view c later j
unfolding remove view
dropped c key j now later entry h e stale =
    rw (lookup-remove key j c.inner) (elim (Bool-cases (text_beq key j)) [
      | inl same ↦
          let at_j : lookup j c.inner ≡ some entry =
            subst (λ k. lookup k c.inner ≡ some entry) ((text_beq_iff key j).0 same) e in
          rw (same, at_j, stale_after c.ttl_seconds now later entry h stale)
      | inr other ↦ rw other
    ])

-- A read changes what no later read of any key returns.
pub view-get :
    (c : RfoCache) (key j : Text) (now later : ℕ)
    → now ≤ later
    → view (get c key now).1 later j ≡ view c later j
unfolding get
view-get c key j now later h = elim (Option-cases (lookup key c.inner)) [
  | inl e ↦ rw (e, get)
  | inr (entry, e) ↦ elim (Bool-cases (is_fresh c.ttl_seconds now entry)) [
    | inl f ↦ rw (e, get, f)
    | inr stale ↦ rw (e, get, stale) (dropped c key j now later entry h e stale)
  ]
]

-- A read keeps the time to live.
pub ttl-get : (c : RfoCache) (key : Text) (now : ℕ) → (get c key now).1.ttl_seconds ≡ c.ttl_seconds
unfolding get
ttl-get c key now = ground arith

-- Nor does the background cleanup.
pub view-cleanup_expired :
    (c : RfoCache) (j : Text) (now later : ℕ)
    → Distinct c.inner
    → now ≤ later
    → view (cleanup_expired c now) later j ≡ view c later j
unfolding cleanup_expired view kept
view-cleanup_expired c j now later d h =
    rw (lookup-retain (λ key entry. is_fresh c.ttl_seconds now entry) j d)
      (elim (Option-cases (lookup j c.inner)) [
        | inl e ↦ rw e
        | inr (entry, e) ↦ elim (Bool-cases (is_fresh c.ttl_seconds now entry)) [
          | inl f ↦ rw (e, f)
          | inr stale ↦ rw (e, stale, stale_after c.ttl_seconds now later entry h stale)
        ]
      ])

-- A write shows at its key while it is fresh, and nowhere else.
pub view-insert :
    (c : RfoCache) (key j : Text) (entry : CacheEntry) (now : ℕ)
    → view (insert c key entry) now j ≡ (
        if text_beq key j
        then (if is_fresh c.ttl_seconds now entry then some entry else none)
        else view c now j)
unfolding insert view
view-insert c key j entry now =
    rw (lookup-insert key j entry c.inner)
      (elim (Bool-cases (text_beq key j)) [ inl same ↦ rw same | inr other ↦ rw other ])
