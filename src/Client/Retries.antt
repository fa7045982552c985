-- ===== src/Client/Retries.antt =====
-- The retries of src/client.rs: how often an operation is tried, how long the client waits, and what
-- it returns.
use rfo_protocol.Base.{
  ℕ, zero, suc, ◌+◌, ◌-◌, ◌≤◌, ◌<◌, ◌≡◌, refl, ap, subst, ◌∙◌, Bool, true, false, ◌&&◌, [], Text,
  length, max, All, ltb, lt→ltb, le→ltb, Bool-cases, ◌⊎◌, inl, inr, arith,
}
use rfo_protocol.Client.{
  RetryConfig, Answer, transient, returned, last_error_of, Run, slept, attempts_from,
  execute_with_retry,
}

-- A run that starts with the attempt of that number, and waits no longer than the bound.
pub record IsRetried (bound limit first : ℕ) (operation : ℕ → Answer) (run : Run) : Type 0 where
  pub answered : run.outcome ≡ returned (operation (first + length run.sleeps))
  pub few : first + length run.sleeps ≤ limit
  pub transients : (i : ℕ) → i < length run.sleeps → transient (operation (first + i)) ≡ true
  pub stops :
      (first + length run.sleeps ≡ limit)
      ⊎ (transient (operation (first + length run.sleeps)) ≡ false)
  pub paused : All (λ d. d ≤ bound) run.sleeps

not_again :
    (bound limit first : ℕ) (operation : ℕ → Answer)
    → first ≤ limit
    → (first ≡ limit) ⊎ (transient (operation first) ≡ false)
    → IsRetried bound limit first operation
        (record { outcome = returned (operation first); sleeps = [] })
not_again bound limit first operation few stops =
    let same : first ≡ first + 0 = omega arith in
    record {
      answered = ap (λ n. returned (operation n)) same;
      few = omega arith;
      transients = λ i h. ground arith;
      stops = subst (λ n. (n ≡ limit) ⊎ (transient (operation n) ≡ false)) same stops;
      paused = tt;
    }

once_more :
    (bound limit first backoff : ℕ) (operation : ℕ → Answer) (run : Run)
    → transient (operation first) ≡ true
    → backoff ≤ bound
    → IsRetried bound limit (suc first) operation run
    → IsRetried bound limit first operation (slept backoff run)
once_more bound limit first backoff operation run again b r =
    let shift : suc first + length run.sleeps ≡ first + suc (length run.sleeps) = omega arith in
    record {
      answered = r.answered ∙ ap (λ n. returned (operation n)) shift;
      few = subst (λ n. n ≤ limit) shift r.few;
      transients = transients_from;
      stops = subst (λ n. (n ≡ limit) ⊎ (transient (operation n) ≡ false)) shift r.stops;
      paused = (b, r.paused);
    }
  where
    transients_from :
        (i : ℕ) → i < suc (length run.sleeps) → transient (operation (first + i)) ≡ true
    transients_from zero h =
        let one_at : first ≡ first + 0 = omega arith in
        subst (λ n. transient (operation n) ≡ true) one_at again
    transients_from (suc i) h =
        let at : suc first + i ≡ first + suc i = omega arith in
        subst (λ n. transient (operation n) ≡ true) at (r.transients i (omega arith))

&&-false : (b : Bool) → (b && false) ≡ false
&&-false true = refl
&&-false false = refl

module _ {F : Type 0} (times : ℕ → F → ℕ) (display_status : ℕ → Text) where
  attempts_from-IsRetried :
      (config : RetryConfig F) (operation : ℕ → Answer) (left attempt : ℕ) (last_error : Text)
      (backoff bound : ℕ)
      → attempt + left ≡ config.max_attempts
      → config.max_backoff ≤ bound
      → backoff ≤ bound
      → IsRetried bound config.max_attempts attempt operation (
          attempts_from times display_status config operation (suc left) attempt last_error backoff)
  unfolding attempts_from
  attempts_from-IsRetried config operation zero attempt last_error backoff bound e m b =
      rw (used_up, attempts_from)
        (not_again bound config.max_attempts attempt operation (omega arith) (inl (omega arith)))
    where
      used_up : (transient (operation attempt) && ltb attempt config.max_attempts) ≡ false
      used_up =
          rw (le→ltb attempt config.max_attempts (omega arith))
            (&&-false (transient (operation attempt)))
  attempts_from-IsRetried config operation (suc left) attempt last_error backoff bound e m b =
      rw (lt→ltb attempt config.max_attempts (omega arith), attempts_from)
        (elim (Bool-cases (transient (operation attempt))) [
          | inl again ↦
              rw (again, attempts_from)
                (once_more bound config.max_attempts attempt backoff operation _ again b (
                  attempts_from-IsRetried config operation left (suc attempt)
                    (last_error_of display_status (operation attempt)) _ bound (omega arith) m
                    (omega arith)))
          | inr settled ↦
              rw (settled, attempts_from)
                (not_again bound config.max_attempts attempt operation (omega arith) (inr settled))
        ])

-- With at least one attempt allowed, what is returned is the answer to the attempt after the last sleep.
-- Every earlier answer was one to try again, and this one is not or the attempts are used up. No more
-- attempts are made than allowed, and no sleep is longer than the initial and the greatest backoff.
pub execute_with_retry-IsRetried :
    {F : Type 0} (times : ℕ → F → ℕ) (display_status : ℕ → Text) (config : RetryConfig F)
    (operation : ℕ → Answer)
    → 0 < config.max_attempts
    → IsRetried
        (max config.initial_backoff config.max_backoff)
        config.max_attempts
        1
        operation
        (execute_with_retry times display_status config operation)
unfolding execute_with_retry
execute_with_retry-IsRetried times display_status config operation h =
    let left = config.max_attempts - 1 in
    let bound = max config.initial_backoff config.max_backoff in
    let all : suc left ≡ config.max_attempts = omega arith in
    subst
      (λ n.
        IsRetried bound config.max_attempts 1 operation
          (attempts_from times display_status config operation n 1 [] config.initial_backoff))
      all
      (attempts_from-IsRetried times display_status config operation left 1 []
        config.initial_backoff bound (omega arith) (omega arith) (omega arith))
