-- ===== src/Cache/Refinement.antt =====
-- The cache of src/cache/mod.rs refines a map from domains to the entries written last, which a read looks
-- at through the time to live, as long as no write overtakes a late removal.
use rfo_protocol.Base.{
  ℕ, zero, suc, ◌≤◌, ◌≡◌, refl, ap₂, subst, sym, ◌∙◌, false, none, some, List, [], ◌∷◌, All, arith,
  Text, Option-cases, Bool-cases, inl, inr, get_elem?, delete_at,
}
use rfo_protocol.Base.Int.{ℤ}
use rfo_protocol.Base.Keys.{text_beq}
use rfo_protocol.Payloads.{CacheEntry}
use rfo_protocol.Cache.{with_ttl, look}
use rfo_protocol.Cache.Expiry.{fresh_only}
use rfo_protocol.Cache.Steps.{
  Op, puts, looks, drops, removes, cleans, clears, Running, drop_waiting, apply, answers, Written,
  spec_apply, spec_answers, InOrder, look-view, look-expired,
}
use rfo_protocol.Cache.Agreement.{
  Agrees, new-Agrees, later-Agrees, put-Agrees, remove-Agrees, drop-Agrees, cleanup-Agrees,
  clear-Agrees,
}

-- No step writes a key while a `get` that found it expired still has to remove it.
abbrev pub Undisturbed : Running → Op → Type 0
Undisturbed s (puts key entry) = All (λ k. text_beq key k ≡ false) s.waiting
Undisturbed s (looks key) = Unit
Undisturbed s (drops n) = Unit
Undisturbed s (removes key) = Unit
Undisturbed s cleans = Unit
Undisturbed s clears = Unit

abbrev pub Calm : Running → List (ℕ × Op) → Type 0
Calm s [] = Unit
Calm s ((now, op) ∷ ops) = Undisturbed s op × Calm (apply s now op).1 ops

-- From a time on, nothing is to be shown of a key.
abbrev Over : ℤ → Written → ℕ → Text → Type 0
Over ttl m start key = (later : ℕ) → start ≤ later → fresh_only ttl later (m key) ≡ none

All-imp :
    (P Q : Text → Type 0) (keys : List Text) → ((k : Text) → P k → Q k) → All P keys → All Q keys
All-imp P Q [] f h = tt
All-imp P Q (k ∷ keys) f h = (f k h.0, All-imp P Q keys f h.1)

All-both :
    (P Q : Text → Type 0) (keys : List Text) → All P keys → All Q keys → All (λ k. P k × Q k) keys
All-both P Q [] h g = tt
All-both P Q (k ∷ keys) h g = ((h.0, g.0), All-both P Q keys h.1 g.1)

All-delete_at :
    (P : Text → Type 0) (n : ℕ) (keys : List Text) → All P keys → All P (delete_at n keys)
All-delete_at P n [] h = tt
All-delete_at P zero (k ∷ keys) h = h.1
All-delete_at P (suc n) (k ∷ keys) h = (h.0, All-delete_at P n keys h.1)

All-get_elem? :
    (P : Text → Type 0) (n : ℕ) (keys : List Text) (k : Text)
    → All P keys
    → get_elem? keys n ≡ some k
    → P k
All-get_elem? P n [] k h e = cc
All-get_elem? P zero (j ∷ keys) k h e = let same : j ≡ k = cc in subst P same h.0
All-get_elem? P (suc n) (j ∷ keys) k h e = All-get_elem? P n keys k h.1 e

-- The cache agrees with the last writes, and every key that waits is over.
record Refines (s : Running) (ttl : ℤ) (m : Written) (start : ℕ) : Type 0 where
  agrees : Agrees ◌≡◌ (λ v. refl) s.cache ttl m start
  over : All (Over ttl m start) s.waiting

module _ (s : Running) (ttl : ℤ) (m : Written) (start now : ℕ) (order : start ≤ now)
    (r : Refines s ttl m start) where
  still-Over : All (Over ttl m now) s.waiting
  still-Over = All-imp _ _ s.waiting (λ k h later le. h later (omega arith)) r.over

  puts-Refines :
      (key : Text) (entry : CacheEntry)
      → All (λ k. text_beq key k ≡ false) s.waiting
      → Refines (apply s now (puts key entry)).1 ttl (spec_apply ttl m now (puts key entry)).1 now
  unfolding apply fresh_only
  puts-Refines key entry apart = record {
    agrees = put-Agrees ◌≡◌ (λ v. refl) s.cache ttl m start now order r.agrees key entry;
    over =
        All-imp _ _ s.waiting (λ k (h, other) later le. rw other (h later le))
          (All-both _ _ s.waiting still-Over apart);
  }

  looks-Refines : (key : Text) → Refines (apply s now (looks key)).1 ttl m now
  unfolding apply
  looks-Refines key = record {
    agrees = later-Agrees ◌≡◌ (λ v. refl) s.cache ttl m start now order r.agrees;
    over = elim (Bool-cases (look s.cache key now).1) [
      | inl expired ↦ rw expired (
        (λ later le.
            sym (r.agrees.shows later key (omega arith))
            ∙ look-expired s.cache key now later expired le),
        still-Over,
      )
      | inr settled ↦ rw settled still-Over
    ];
  }

  drops-Refines : (n : ℕ) → Refines (drop_waiting s n) ttl m now
  unfolding drop_waiting
  drops-Refines n = elim (Option-cases (get_elem? s.waiting n)) [
    | inl nobody ↦
        rw (nobody, drop_waiting)
          (record {
            agrees = later-Agrees ◌≡◌ (λ v. refl) s.cache ttl m start now order r.agrees;
            over = still-Over;
          })
    | inr (key, waits) ↦
        rw (waits, drop_waiting)
          (record {
            agrees =
                drop-Agrees ◌≡◌ (λ v. refl) s.cache ttl m start now order r.agrees key
                  (λ later le. sym (All-get_elem? _ n s.waiting key still-Over waits later le));
            over = All-delete_at _ n s.waiting still-Over;
          })
  ]

  removes-Refines :
      (key : Text)
      → Refines (apply s now (removes key)).1 ttl (spec_apply ttl m now (removes key)).1 now
  unfolding apply fresh_only
  removes-Refines key = record {
    agrees = remove-Agrees ◌≡◌ (λ v. refl) s.cache ttl m start now order r.agrees key;
    over =
        All-imp _ _ s.waiting
          (λ k h later le. elim (Bool-cases (text_beq key k)) [
            | inl here ↦ rw here refl
            | inr other ↦ rw other (h later le)
          ])
          still-Over;
  }

  cleans-Refines : Refines (apply s now cleans).1 ttl m now
  unfolding apply
  cleans-Refines = record {
    agrees = cleanup-Agrees ◌≡◌ (λ v. refl) s.cache ttl m start now order r.agrees;
    over = still-Over;
  }

  clears-Refines : Refines (apply s now clears).1 ttl (λ j. none) now
  unfolding apply fresh_only
  clears-Refines = record {
    agrees = clear-Agrees ◌≡◌ (λ v. refl) s.cache ttl m start now order r.agrees;
    over = All-imp _ _ s.waiting (λ k h later le. refl) still-Over;
  }

step-Refines :
    (s : Running) (ttl : ℤ) (m : Written) (start now : ℕ) (op : Op)
    → start ≤ now
    → Undisturbed s op
    → Refines s ttl m start
    → ((apply s now op).0 ≡ (spec_apply ttl m now op).0)
      × Refines (apply s now op).1 ttl (spec_apply ttl m now op).1 now
unfolding apply
step-Refines s ttl m start now (puts key entry) h calm r =
    (refl, puts-Refines s ttl m start now h r key entry calm)
step-Refines s ttl m start now (looks key) h calm r =
    (look-view s.cache key now ∙ r.agrees.shows now key h, looks-Refines s ttl m start now h r key)
step-Refines s ttl m start now (drops n) h calm r = (refl, drops-Refines s ttl m start now h r n)
step-Refines s ttl m start now (removes key) h calm r =
    (refl, removes-Refines s ttl m start now h r key)
step-Refines s ttl m start now cleans h calm r = (refl, cleans-Refines s ttl m start now h r)
step-Refines s ttl m start now clears h calm r = (refl, clears-Refines s ttl m start now h r)

answers_refine :
    (s : Running) (ttl : ℤ) (m : Written) (start : ℕ) (ops : List (ℕ × Op))
    → InOrder start ops
    → Calm s ops
    → Refines s ttl m start
    → answers s ops ≡ spec_answers ttl m ops
unfolding answers spec_answers
answers_refine s ttl m start [] order calm r = refl
answers_refine s ttl m start ((now, op) ∷ ops) order calm r =
    let (same, next) = step-Refines s ttl m start now op order.0 calm.0 r in
    ap₂ (λ x xs. x ∷ xs) same
      (answers_refine (apply s now op).1 ttl (spec_apply ttl m now op).1 now ops order.1 calm.1
        next)

-- Over any interleaving with times in order, lazy removals and background cleanups included, in which no
-- key is written while a `get` that found it expired has yet to remove it, every read answers the
-- entry written last if it is within its time to live, and nothing otherwise.
pub answers-spec :
    (ttl : ℤ) (ops : List (ℕ × Op))
    → InOrder 0 ops
    → Calm (record { cache = with_ttl ttl; waiting = [] }) ops
    → answers (record { cache = with_ttl ttl; waiting = [] }) ops
      ≡ spec_answers ttl (λ key. none) ops
answers-spec ttl ops order calm =
    answers_refine _ ttl (λ key. none) 0 ops order calm
      (record { agrees = new-Agrees ◌≡◌ (λ v. refl) ttl; over = tt })
