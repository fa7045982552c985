-- ===== src/Limits/Rate/Burst.antt =====
-- How many requests of one address `check_rate_limit` allows in a window.
use rfo_protocol.Base.{
  ℕ, zero, suc, ◌+◌, ◌-◌, ◌^◌, ◌≤◌, ◌<◌, ◌≡◌, ◌⊎◌, inl, inr, refl, ap, ◌∙◌, Bool, true, false, none,
  some, List, [], ◌∷◌, ◌++◌, map, All, arith, Text, leb, length, replicate, min,
}
use rfo_protocol.Base.Keys.{text_eq, lookup, insert, lookup-insert_self}
use rfo_protocol.Limits.Window.{Counter, seconds_since, hit, hit-running, hit-over}
use rfo_protocol.Limits.Rate.{
  RateLimitState, window_secs, max_requests, or_fresh, check_rate_limit, decisions,
}

-- The answers after `k` requests of the window.
answers_after : ℕ → List ℕ → List Bool
answers_after k [] = []
answers_after k (t ∷ ts) = leb (k + 1) max_requests ∷ answers_after (k + 1) ts

running :
    (state : RateLimitState) (ip : Text) (start k : ℕ) (ts : List ℕ)
    → lookup ip state.entries ≡ some (record { count = k; window_start = start })
    → All (λ t. seconds_since start t < window_secs) ts
    → k + length ts < 2 ^ 32
    → decisions state (map (λ t. (ip, t)) ts) ≡ answers_after k ts
unfolding decisions answers_after check_rate_limit
running state ip start k [] e h small = refl
running state ip start k (t ∷ ts) e h small =
    let now = hit-running window_secs t k start h.0 (omega arith) in
    rw (e, now)
      (ap (λ r. leb (k + 1) max_requests ∷ r)
        (running
          (record {
            entries = insert ip (record { count = k + 1; window_start = start }) state.entries;
          })
          ip start (k + 1) ts (lookup-insert_self ip _ state.entries) h.1 (omega arith)))

split_answers :
    (k left : ℕ) (ts : List ℕ)
    → left ≡ max_requests - k
    → answers_after k ts
      ≡ replicate (min (length ts) left) true ++ replicate (length ts - left) false
unfolding answers_after
split_answers k left [] e =
    let a : min 0 left ≡ 0 = omega arith in let b : 0 - left ≡ 0 = omega arith in rw (a, b)
split_answers k zero (t ∷ ts) e =
    let n = length ts in
    let a : min (suc n) 0 ≡ 0 = omega arith in
    let b : suc n - 0 ≡ suc n = omega arith in
    let c : min n 0 ≡ 0 = omega arith in
    let d : n - 0 ≡ n = omega arith in
    let refused : leb (k + 1) max_requests ≡ false = ground arith in
    rw (a, b, refused)
      (ap (λ r. false ∷ r) (split_answers (k + 1) zero ts (omega arith) ∙ rw (c, d)))
split_answers k (suc left) (t ∷ ts) e =
    let n = length ts in
    let a : min (suc n) (suc left) ≡ suc (min n left) = omega arith in
    let b : suc n - suc left ≡ n - left = omega arith in
    let allowed : leb (k + 1) max_requests ≡ true = ground arith in
    rw (a, b, allowed) (ap (λ r. true ∷ r) (split_answers (k + 1) left ts (omega arith)))

-- The first request of an address, or the first after its window is over.
unfoldable pub StartsWindow : RateLimitState → Text → ℕ → Type 0
StartsWindow state ip now =
    (lookup ip state.entries ≡ none)
    ⊎ ((entry : Counter) × (lookup ip state.entries ≡ some entry)
        × (window_secs ≤ seconds_since entry.window_start now))

first_hit :
    (state : RateLimitState) (ip : Text) (now : ℕ)
    → StartsWindow state ip now
    → hit window_secs now (or_fresh (lookup ip state.entries) now)
      ≡ record { count = 1; window_start = now }
unfolding StartsWindow
first_hit state ip now (inl e) =
    rw e (hit-running window_secs now 0 now (omega arith) (omega arith))
first_hit state ip now (inr (entry, e, over)) = rw e (hit-over window_secs now entry over)

-- From a request that starts a window on, of the requests of its address in that window, fewer than
-- 2^31 and however close together, the first hundred are allowed and all later ones refused.
pub decisions-window :
    (state : RateLimitState) (ip : Text) (start : ℕ) (later : List ℕ)
    → StartsWindow state ip start
    → All (λ t. seconds_since start t < window_secs) later
    → length later < 2 ^ 31
    → decisions state (map (λ t. (ip, t)) (start ∷ later))
      ≡ replicate (min (length later + 1) max_requests) true
        ++ replicate (length later + 1 - max_requests) false
unfolding decisions check_rate_limit
decisions-window state ip start later first close small =
    let n = length later in
    let one : Counter = record { count = 1; window_start = start } in
    let a : min (n + 1) max_requests ≡ suc (min n 99) = omega arith in
    let b : n + 1 - max_requests ≡ n - 99 = omega arith in
    rw (a, b, first_hit state ip start first)
      (ap (λ r. true ∷ r)
        (running (record { entries = insert ip one state.entries }) ip start 1 later
            (lookup-insert_self ip one state.entries) close (omega arith)
          ∙ split_answers 1 99 later refl))
