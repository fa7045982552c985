-- ===== src/Cache/Races.antt =====
-- Calls on the cache of src/cache/mod.rs from many threads, in any interleaving.
use rfo_protocol.Base.{
  ℕ, ◌≤◌, ◌≡◌, refl, subst, sym, ◌⊎◌, inl, inr, Option, none, List, [], ◌∷◌, get_elem?,
  Option-cases,
}
use rfo_protocol.Base.Int.{ℤ}
use rfo_protocol.Payloads.{CacheEntry}
use rfo_protocol.Cache.{with_ttl}
use rfo_protocol.Cache.Expiry.{fresh_only}
use rfo_protocol.Cache.Steps.{
  Op, puts, looks, drops, removes, cleans, clears, Running, drop_waiting, apply, answers, Written,
  spec_apply, spec_answers, InOrder, look-view,
}
use rfo_protocol.Cache.Agreement.{
  Agrees, new-Agrees, later-Agrees, put-Agrees, remove-Agrees, drop-Agrees, cleanup-Agrees,
  clear-Agrees,
}

-- Nothing, or just this.
abbrev pub AtMost : Option CacheEntry → Option CacheEntry → Type 0
AtMost a b = (a ≡ none) ⊎ (a ≡ b)

-- Each answer is none, or the one of the same place.
pub data AllAtMost : List (Option CacheEntry) → List (Option CacheEntry) → Type 0 where
  no_more : AllAtMost [] []
  one_more :
      {a b : Option CacheEntry} {more others : List (Option CacheEntry)}
      → AtMost a b
      → AllAtMost more others
      → AllAtMost (a ∷ more) (b ∷ others)

just : (a : Option CacheEntry) → AtMost a a
just a = inr refl

drop_waiting-Agrees :
    (s : Running) (ttl : ℤ) (m : Written) (start now n : ℕ)
    → start ≤ now
    → Agrees AtMost just s.cache ttl m start
    → Agrees AtMost just (drop_waiting s n).cache ttl m now
unfolding drop_waiting
drop_waiting-Agrees s ttl m start now n order a = elim (Option-cases (get_elem? s.waiting n)) [
  | inl nobody ↦
      rw (nobody, drop_waiting) (later-Agrees AtMost just s.cache ttl m start now order a)
  | inr (key, waits) ↦
      rw (waits, drop_waiting)
        (drop-Agrees AtMost just s.cache ttl m start now order a key (λ later h. inl refl))
]

step-Agrees :
    (s : Running) (ttl : ℤ) (m : Written) (start now : ℕ) (op : Op)
    → start ≤ now
    → Agrees AtMost just s.cache ttl m start
    → AtMost (apply s now op).0 (spec_apply ttl m now op).0
      × Agrees AtMost just (apply s now op).1.cache ttl (spec_apply ttl m now op).1 now
unfolding apply
step-Agrees s ttl m start now (puts key entry) h a =
    (inr refl, put-Agrees AtMost just s.cache ttl m start now h a key entry)
step-Agrees s ttl m start now (looks key) h a = (
  subst (λ v. AtMost v (fresh_only ttl now (m key))) (sym (look-view s.cache key now))
      (a.shows now key h),
  later-Agrees AtMost just s.cache ttl m start now h a,
)
step-Agrees s ttl m start now (drops n) h a =
    (inr refl, drop_waiting-Agrees s ttl m start now n h a)
step-Agrees s ttl m start now (removes key) h a =
    (inr refl, remove-Agrees AtMost just s.cache ttl m start now h a key)
step-Agrees s ttl m start now cleans h a =
    (inr refl, cleanup-Agrees AtMost just s.cache ttl m start now h a)
step-Agrees s ttl m start now clears h a =
    (inr refl, clear-Agrees AtMost just s.cache ttl m start now h a)

answers_at_most :
    (s : Running) (ttl : ℤ) (m : Written) (start : ℕ) (ops : List (ℕ × Op))
    → InOrder start ops
    → Agrees AtMost just s.cache ttl m start
    → AllAtMost (answers s ops) (spec_answers ttl m ops)
unfolding answers spec_answers
answers_at_most s ttl m start [] order a = no_more
answers_at_most s ttl m start ((now, op) ∷ ops) order a =
    let (here, next) = step-Agrees s ttl m start now op order.0 a in
    one_more here
      (answers_at_most (apply s now op).1 ttl (spec_apply ttl m now op).1 now ops order.1 next)

-- In any interleaving of the calls of many threads, with times in order, a read answers nothing or the
-- entry written last under its key, within its time to live: never an older one, and none that was removed.
pub answers-AllAtMost :
    (ttl : ℤ) (ops : List (ℕ × Op))
    → InOrder 0 ops
    → AllAtMost
        (answers (record { cache = with_ttl ttl; waiting = [] }) ops)
        (spec_answers ttl (λ key. none) ops)
answers-AllAtMost ttl ops order =
    answers_at_most _ ttl (λ key. none) 0 ops order (new-Agrees AtMost just ttl)
