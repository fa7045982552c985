-- ===== src/Limits/Window.antt =====
-- The window counter that both limiters keep for an address: `RateLimitEntry` of
-- src/server/middleware.rs and `ConnectionRecord` of src/audit.rs, which have the same fields and
-- the same update.
use rfo_protocol.Base.{ℕ, ◌+◌, ◌-◌, ◌/◌, ◌^◌, ◌≤◌, ◌<◌, ◌≡◌, arith, as_u32, leb, if◌then◌else◌}

pub record Counter : Type 0 where
  pub count : ℕ
  pub window_start : ℕ

-- `now.duration_since(start).as_secs()`
abbrev pub seconds_since : ℕ → ℕ → ℕ
seconds_since start now = (now - start) / 1_000_000_000

-- `or_insert(…)` of a new address.
abbrev pub fresh : ℕ → Counter
fresh now = record { count = 0; window_start = now }

-- Reset the window if it is over, then count the request; the count is a u32.
unfoldable pub hit : ℕ → ℕ → Counter → Counter
hit window now entry =
    if leb window (seconds_since entry.window_start now)
    then record { count = 1; window_start = now }
    else record entry { count = as_u32 (entry.count + 1) }

-- A request in a running window is counted, and leaves its start.
pub hit-running :
    (window now n start : ℕ)
    → seconds_since start now < window
    → n + 1 < 2 ^ 32
    → hit window now (record { count = n; window_start = start })
      ≡ record { count = n + 1; window_start = start }
unfolding hit
hit-running window now n start h small = ground arith

-- A request after the window starts a new one.
pub hit-over :
    (window now : ℕ) (entry : Counter)
    → window ≤ seconds_since entry.window_start now
    → hit window now entry ≡ record { count = 1; window_start = now }
unfolding hit
hit-over window now entry h = ground arith
