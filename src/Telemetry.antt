-- ===== src/Telemetry.antt =====
-- The counters, histories and ring buffer of src/telemetry.rs. A `DashMap` is an association list,
-- an atomic counter a u64 that wraps, and the clock an argument.
pub mod History
pub mod Report
pub mod Ranking
pub mod Counts
use rfo_protocol.Base.{
  ℕ, ◌+◌, ◌-◌, ◌%◌, ◌^◌, Bool, Option, none, some, List, [], ◌∷◌, ◌++◌, Text, length, drop, ltb,
  if◌then◌else◌,
}
use rfo_protocol.Base.Keys.{Assoc, text_eq, lookup, insert}
use rfo_protocol.Ring.{Ring, new_ring, store}

pub record ScoreSnapshot : Type 0 where
  pub score : ℕ
  pub recorded_at : ℕ

pub record RequestTelemetry : Type 0 where
  pub domain : Text
  pub cache_hit : Bool
  pub processing_time_ms : ℕ
  pub payload_type : Text
  pub timestamp : ℕ

pub record TelemetryTracker : Type 0 where
  pub cache_hits : ℕ
  pub cache_misses : ℕ
  pub entries_expired : ℕ
  pub start_time : ℕ
  pub quality_history : Assoc Text (List ScoreSnapshot)
  pub site_domains : Assoc Text Text
  pub handshake_counts : Assoc Text ℕ
  pub recent_requests : Ring RequestTelemetry

unfoldable pub new_tracker : ℕ → TelemetryTracker
new_tracker now = record {
  cache_hits = 0;
  cache_misses = 0;
  entries_expired = 0;
  start_time = now;
  quality_history = [];
  site_domains = [];
  handshake_counts = [];
  recent_requests = new_ring;
}

-- `fetch_add` of a u64
abbrev pub fetch_add : ℕ → ℕ → ℕ
fetch_add n k = (n + k) % 2 ^ 64

unfoldable pub record_cache_hit : TelemetryTracker → TelemetryTracker
record_cache_hit t = record t { cache_hits = fetch_add t.cache_hits 1 }

unfoldable pub record_cache_miss : TelemetryTracker → TelemetryTracker
record_cache_miss t = record t { cache_misses = fetch_add t.cache_misses 1 }

unfoldable pub record_expired : TelemetryTracker → ℕ → TelemetryTracker
record_expired t count = record t { entries_expired = fetch_add t.entries_expired count }

-- `or_default()` of a history
abbrev pub history_of : Option (List ScoreSnapshot) → List ScoreSnapshot
history_of none = []
history_of (some history) = history

-- `if len > 50 { history.drain(0..len - 50); }`
unfoldable pub capped : List ScoreSnapshot → List ScoreSnapshot
capped history = let len = length history in if ltb 50 len then drop (len - 50) history else history

unfoldable pub record_quality_score : TelemetryTracker → Text → Text → ℕ → ℕ → TelemetryTracker
record_quality_score t site_id domain score now =
    let history = history_of (lookup site_id t.quality_history) in
    let snapshot : ScoreSnapshot = record { score = score; recorded_at = now } in
    record t {
      site_domains = insert site_id domain t.site_domains;
      quality_history = insert site_id (capped (history ++ (snapshot ∷ []))) t.quality_history;
    }

-- `or_insert_with(|| AtomicU64::new(0))`
abbrev pub count_of : Option ℕ → ℕ
count_of none = 0
count_of (some n) = n

unfoldable pub record_handshake : TelemetryTracker → Text → TelemetryTracker
record_handshake t site_id = record t {
  handshake_counts =
      insert site_id (fetch_add (count_of (lookup site_id t.handshake_counts)) 1)
        t.handshake_counts;
}

unfoldable pub record_request : TelemetryTracker → RequestTelemetry → TelemetryTracker
record_request t telemetry = record t { recent_requests = store 100 t.recent_requests telemetry }
