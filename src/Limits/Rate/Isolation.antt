-- ===== src/Limits/Rate/Isolation.antt =====
-- What `check_rate_limit` answers an address depends on the requests of that address only, and the
-- background `cleanup` changes no answer.
use rfo_protocol.Base.{
  ℕ, ◌*◌, ◌≤◌, ◌≡◌, Bool, some, List, [], ◌∷◌, arith, Text, leb, ltb, ltb→le, if◌then◌else◌,
  Bool-cases, Option-cases, inl, inr,
}
use rfo_protocol.Base.Keys.{text_eq, text_beq, lookup, Distinct, kept, lookup-retain}
use rfo_protocol.Limits.Window.{Counter, seconds_since, hit, hit-running, hit-over}
use rfo_protocol.Limits.Rate.{
  RateLimitState, window_secs, max_requests, or_fresh, check_rate_limit, is_recent, cleanup,
}

module _ (ip : Text) where
  -- The requests of `ip` in a history.
  pub own : List (Text × ℕ) → List (Text × ℕ)
  own [] = []
  own ((j, now) ∷ rest) = let mine = own rest in if text_beq j ip then (j, now) ∷ mine else mine

  -- The answers to `ip` in a history.
  pub answers_to : RateLimitState → List (Text × ℕ) → List Bool
  answers_to state [] = []
  answers_to state ((j, now) ∷ rest) =
      let (allowed, state') = check_rate_limit state j now in
      let later = answers_to state' rest in if text_beq j ip then allowed ∷ later else later

  -- A cleanup, at any earlier time, of a map with distinct keys changes the answer to no request.
  pub check_rate_limit-cleanup :
      (state : RateLimitState) (before now : ℕ)
      → Distinct state.entries
      → before ≤ now
      → (check_rate_limit (cleanup state before) ip now).0 ≡ (check_rate_limit state ip now).0
  unfolding check_rate_limit cleanup is_recent kept
  check_rate_limit-cleanup state before now d h =
      rw (lookup-retain (is_recent before) ip d) (elim (Option-cases (lookup ip state.entries)) [
        | inl e ↦ rw e
        | inr (entry, e) ↦ rw e (forgotten entry)
      ])
    where
      forgotten :
          (entry : Counter)
          → leb
              (hit window_secs now (or_fresh (kept (is_recent before) ip (some entry)) now)).count
              max_requests
            ≡ leb (hit window_secs now entry).count max_requests
      forgotten entry =
          elim (Bool-cases (ltb (seconds_since entry.window_start before) (window_secs * 2))) [
            | inl recent ↦ rw (recent, kept)
            | inr old ↦ rw (
              old,
              kept,
              hit-running window_secs now 0 now (omega arith) (omega arith),
              hit-over window_secs now entry (omega (arith, ltb→le _ _ old)),
            )
          ]
