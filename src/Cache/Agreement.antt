-- ===== src/Cache/Agreement.antt =====
-- The cache of src/cache/mod.rs agrees with the entries written last: what it shows of each key stands
-- in a relation to the fresh one of these. Every step keeps that but the late removal of a key that waits.
use rfo_protocol.Base.{
  ℕ, ◌≤◌, ◌≡◌, refl, subst, Option, none, some, arith, Text, if◌then◌else◌, Bool-cases, inl, inr,
}
use rfo_protocol.Base.Int.{ℤ}
use rfo_protocol.Base.Keys.{
  text_eq, text_beq, text_beq_iff, lookup, Distinct, insert-Distinct, remove-Distinct,
  retain-Distinct, none_yet,
}
use rfo_protocol.Payloads.{CacheEntry}
use rfo_protocol.Cache.{RfoCache, is_fresh, with_ttl, insert, remove, cleanup_expired, clear}
use rfo_protocol.Cache.Expiry.{fresh_only, view, view-cleanup_expired, view-insert}
use rfo_protocol.Cache.Steps.{Written, puts, removes, spec_apply, view-remove}

module _ (R : Option CacheEntry → Option CacheEntry → Type 0)
    (same : (a : Option CacheEntry) → R a a) where
  pub record Agrees (c : RfoCache) (ttl : ℤ) (m : Written) (start : ℕ) : Type 0 where
    pub distinct : Distinct c.inner
    pub same_ttl : c.ttl_seconds ≡ ttl
    pub shows :
        (later : ℕ) (key : Text)
        → start ≤ later
        → R (view c later key) (fresh_only ttl later (m key))

  pub new-Agrees : (ttl : ℤ) → Agrees (with_ttl ttl) ttl (λ key. none) 0
  unfolding with_ttl view fresh_only lookup
  new-Agrees ttl = record { distinct = none_yet; same_ttl = refl; shows = λ later j h. same none }

  module _ (c : RfoCache) (ttl : ℤ) (m : Written) (start now : ℕ) (order : start ≤ now)
      (a : Agrees c ttl m start) where
    pub later-Agrees : Agrees c ttl m now
    later-Agrees = record {
      distinct = a.distinct;
      same_ttl = a.same_ttl;
      shows = λ later j h. a.shows later j (omega arith);
    }

    pub put-Agrees :
        (key : Text) (entry : CacheEntry)
        → Agrees (insert c key entry) ttl (spec_apply ttl m now (puts key entry)).1 now
    unfolding fresh_only
    put-Agrees key entry = record {
      distinct = unfold insert in insert-Distinct key entry a.distinct;
      same_ttl = unfold insert in a.same_ttl;
      shows = λ later j h.
          rw (view-insert c key j entry later) (elim (Bool-cases (text_beq key j)) [
            | inl here ↦ rw here (
                subst
                  (λ t.
                    R (if is_fresh c.ttl_seconds later entry then some entry else none)
                      (if is_fresh t later entry then some entry else none))
                  a.same_ttl (same _))
            | inr other ↦ rw other (a.shows later j (omega arith))
          ]);
    }

    pub remove-Agrees :
        (key : Text) → Agrees (remove c key).1 ttl (spec_apply ttl m now (removes key)).1 now
    unfolding fresh_only
    remove-Agrees key = record {
      distinct = unfold remove in remove-Distinct key a.distinct;
      same_ttl = unfold remove in a.same_ttl;
      shows = λ later j h. rw (view-remove c key j later) (elim (Bool-cases (text_beq key j)) [
        | inl here ↦ rw here (same none)
        | inr other ↦ rw other (a.shows later j (omega arith))
      ]);
    }

    -- A late removal, where showing nothing of its key is right.
    pub drop-Agrees :
        (key : Text)
        → ((later : ℕ) → now ≤ later → R none (fresh_only ttl later (m key)))
        → Agrees (remove c key).1 ttl m now
    drop-Agrees key right = record {
      distinct = unfold remove in remove-Distinct key a.distinct;
      same_ttl = unfold remove in a.same_ttl;
      shows = λ later j h. rw (view-remove c key j later) (elim (Bool-cases (text_beq key j)) [
        | inl here ↦ rw here (
            subst (λ k. R none (fresh_only ttl later (m k))) ((text_beq_iff key j).0 here)
              (right later h))
        | inr other ↦ rw other (a.shows later j (omega arith))
      ]);
    }

    pub cleanup-Agrees : Agrees (cleanup_expired c now) ttl m now
    cleanup-Agrees = record {
      distinct = unfold cleanup_expired in retain-Distinct _ a.distinct;
      same_ttl = unfold cleanup_expired in a.same_ttl;
      shows = λ later j h.
          rw (view-cleanup_expired c j now later a.distinct h) (a.shows later j (omega arith));
    }

    pub clear-Agrees : Agrees (clear c) ttl (λ j. none) now
    unfolding clear view fresh_only lookup
    clear-Agrees = record {
      distinct = none_yet;
      same_ttl = a.same_ttl;
      shows = λ later j h. same none;
    }
