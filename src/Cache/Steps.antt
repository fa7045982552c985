-- ===== src/Cache/Steps.antt =====
-- The calls of many threads on the cache of src/cache/mod.rs, step by step. `get` is two steps, since it
-- gives the entry free before it removes it: `looks` answers, and where the entry has expired its key
-- waits until `drops` removes it. Every other call is one step; `cleanup_expired` takes the entries one
-- after the other, and drops only expired ones.
use rfo_protocol.Base.{
  ℕ, ◌≤◌, ◌≡◌, Bool, true, Option, none, some, List, [], ◌∷◌, arith, Text, if◌then◌else◌,
  Option-cases, Bool-cases, inl, inr, get_elem?, delete_at,
}
use rfo_protocol.Base.Int.{ℤ}
use rfo_protocol.Base.Keys.{text_eq, text_beq, lookup, lookup-remove}
use rfo_protocol.Payloads.{CacheEntry}
use rfo_protocol.Cache.{RfoCache, is_fresh, insert, remove, look, get, cleanup_expired, clear}
use rfo_protocol.Cache.Expiry.{fresh_only, view, stale_after}

pub data Op : Type 0 where
  puts : Text → CacheEntry → Op
  looks removes : Text → Op
  drops : ℕ → Op
  cleans clears : Op

-- The cache, and the keys whose removal a `get` still owes.
pub record Running : Type 0 where
  pub cache : RfoCache
  pub waiting : List Text

abbrev pub owing : Bool → Text → List Text → List Text
owing expired key waiting = if expired then key ∷ waiting else waiting

-- The `get` that waits as the `n`-th removes its key.
unfoldable pub drop_waiting : Running → ℕ → Running
drop_waiting s n = elim (get_elem? s.waiting n) [
  | none ↦ s
  | some key ↦ record { cache = (remove s.cache key).1; waiting = delete_at n s.waiting }
]

-- What a step answers, and the state after it. The answer of `remove`, which the program never reads,
-- is left out: it depends on whether an expired entry is still there.
unfoldable pub apply : Running → ℕ → Op → Option CacheEntry × Running
apply s now (puts key entry) = (none, record s { cache = insert s.cache key entry })
apply s now (looks key) =
    let (answer, expired) = look s.cache key now in
    (answer, record s { waiting = owing expired key s.waiting })
apply s now (drops n) = (none, drop_waiting s n)
apply s now (removes key) = (none, record s { cache = (remove s.cache key).1 })
apply s now cleans = (none, record s { cache = cleanup_expired s.cache now })
apply s now clears = (none, record s { cache = clear s.cache })

unfoldable pub answers : Running → List (ℕ × Op) → List (Option CacheEntry)
answers s [] = []
answers s ((now, op) ∷ ops) = let (a, s') = apply s now op in a ∷ answers s' ops

-- The specification: the entry written last under each key.
abbrev pub Written : Type 0
Written = Text → Option CacheEntry

abbrev pub spec_apply : ℤ → Written → ℕ → Op → Option CacheEntry × Written
spec_apply ttl m now (puts key entry) = (none, λ j. if text_beq key j then some entry else m j)
spec_apply ttl m now (looks key) = (fresh_only ttl now (m key), m)
spec_apply ttl m now (drops n) = (none, m)
spec_apply ttl m now (removes key) = (none, λ j. if text_beq key j then none else m j)
spec_apply ttl m now cleans = (none, m)
spec_apply ttl m now clears = (none, λ j. none)

unfoldable pub spec_answers : ℤ → Written → List (ℕ × Op) → List (Option CacheEntry)
spec_answers ttl m [] = []
spec_answers ttl m ((now, op) ∷ ops) =
    let (a, m') = spec_apply ttl m now op in a ∷ spec_answers ttl m' ops

-- Times that do not go back, from `start` on.
abbrev pub InOrder : ℕ → List (ℕ × Op) → Type 0
InOrder start [] = Unit
InOrder start ((now, op) ∷ ops) = (start ≤ now) × InOrder now ops

-- `get` is its two steps, one after the other.
pub get-look :
    (c : RfoCache) (key : Text) (now : ℕ)
    → get c key now ≡ ((look c key now).0, if (look c key now).1 then (remove c key).1 else c)
unfolding get look
get-look c key now = elim (Option-cases (lookup key c.inner)) [
  | inl e ↦ rw (e, get, look)
  | inr (entry, e) ↦ elim (Bool-cases (is_fresh c.ttl_seconds now entry)) [
    | inl f ↦ rw (e, get, look, f)
    | inr stale ↦ rw (e, get, look, stale)
  ]
]

pub look-view : (c : RfoCache) (key : Text) (now : ℕ) → (look c key now).0 ≡ view c now key
unfolding look view fresh_only
look-view c key now = elim (Option-cases (lookup key c.inner)) [
  | inl e ↦ rw (e, look)
  | inr (entry, e) ↦ rw (e, look) (ground arith)
]

-- A key that waits shows nothing any more.
pub look-expired :
    (c : RfoCache) (key : Text) (now later : ℕ)
    → (look c key now).1 ≡ true
    → now ≤ later
    → view c later key ≡ none
unfolding look view fresh_only
look-expired c key now later h order = elim (Option-cases (lookup key c.inner)) [
  | inl e ↦ rw e
  | inr (entry, e) ↦ elim (Bool-cases (is_fresh c.ttl_seconds now entry)) [
    | inl f ↦ absurd (cc (rw (e, look, f) at h))
    | inr stale ↦ rw (e, stale_after c.ttl_seconds now later entry order stale)
  ]
]

pub view-remove :
    (c : RfoCache) (key j : Text) (later : ℕ)
    → view (remove c key).1 later j ≡ (if text_beq key j then none else view c later j)
unfolding remove view fresh_only
view-remove c key j later =
    rw (lookup-remove key j c.inner)
      (elim (Bool-cases (text_beq key j)) [ inl same ↦ rw same | inr other ↦ rw other ])
