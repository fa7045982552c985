-- ===== src/Limits/Rate.antt =====
-- `RateLimitState` of src/server/middleware.rs: at most 100 requests of an address in a window of a
-- minute.
pub mod Burst
pub mod Isolation
use rfo_protocol.Base.{
  ℕ, ◌+◌, ◌*◌, Bool, true, false, Option, none, some, List, [], ◌∷◌, Text, codes, Outcome, ok, err,
  ltb, leb, ◌==◌, if◌then◌else◌,
}
use rfo_protocol.Base.Keys.{Assoc, text_eq, lookup, insert, retain}
use rfo_protocol.Base.Strings.{trim}
use rfo_protocol.Limits.Window.{Counter, seconds_since, fresh, hit}

abbrev pub window_secs : ℕ
window_secs = 60

abbrev pub max_requests : ℕ
max_requests = 100

pub record RateLimitState : Type 0 where
  pub entries : Assoc Text Counter

unfoldable pub new_state : RateLimitState
new_state = record { entries = [] }

abbrev pub or_fresh : Option Counter → ℕ → Counter
or_fresh none now = fresh now
or_fresh (some entry) now = entry

-- `true` if the request is allowed.
unfoldable pub check_rate_limit : RateLimitState → Text → ℕ → Bool × RateLimitState
check_rate_limit state ip now =
    let entry = hit window_secs now (or_fresh (lookup ip state.entries) now) in
    (leb entry.count max_requests, record { entries = insert ip entry state.entries })

unfoldable pub is_recent : ℕ → Text → Counter → Bool
is_recent now ip entry = ltb (seconds_since entry.window_start now) (window_secs * 2)

unfoldable pub cleanup : RateLimitState → ℕ → RateLimitState
cleanup state now = record { entries = retain (is_recent now) state.entries }

-- A request as the middleware sees it: `header name` is the first value of that header, where it
-- is visible ASCII (`to_str`); `peer` is the address of the socket, if the server recorded it.
pub record Request : Type 0 where
  pub header : Text → Option Text
  pub peer : Option Text

-- `val.split(',').next()`
pub before_comma : Text → Text
before_comma [] = []
before_comma (c ∷ cs) = if c == b',' then [] else c ∷ before_comma cs

unfoldable pub extract_client_ip : Request → Text
unfolding before_comma
extract_client_ip req = elim (req.header (codes "x-forwarded-for")) [
  | some val ↦ trim (before_comma val)
  | none ↦ elim (req.header (codes "x-real-ip")) [
    | some val ↦ trim val
    | none ↦ elim req.peer [ some ip ↦ ip | none ↦ codes "unknown" ]
  ]
]

-- The middleware: 429, or what the next handler answers.
unfoldable pub rate_limit_middleware {ℓ} :
    {R : Type ℓ}
    → RateLimitState
    → Request
    → ℕ
    → (Request → Outcome ℕ R)
    → Outcome ℕ R × RateLimitState
rate_limit_middleware state request now next =
    let (allowed, state') = check_rate_limit state (extract_client_ip request) now in
    (if allowed then next request else err 429, state')

-- The answers to a sequence of requests, each an address and a time.
pub decisions : RateLimitState → List (Text × ℕ) → List Bool
decisions state [] = []
decisions state ((ip, now) ∷ rest) =
    let (allowed, state') = check_rate_limit state ip now in allowed ∷ decisions state' rest
