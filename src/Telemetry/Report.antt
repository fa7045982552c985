-- ===== src/Telemetry/Report.antt =====
-- `report` of src/telemetry.rs. `sort_by` of the standard library is stable; any stable sort gives
-- what is defined here. The ratio of hits stands as its two numbers, which an f64 rounds.
use rfo_protocol.Base.{
  ℕ, ◌-◌, ◌/◌, Option, none, some, List, [], ◌∷◌, map, Text, leb, ltb, if◌then◌else◌, take,
}
use rfo_protocol.Base.Keys.{text_eq, lookup}
use rfo_protocol.Telemetry.{
  ScoreSnapshot, RequestTelemetry, TelemetryTracker, history_of, fetch_add,
}

pub record CacheMetrics : Type 0 where
  pub hits : ℕ
  pub misses : ℕ
  pub hit_ratio : ℕ × ℕ
  pub total_entries : ℕ
  pub entries_expired : ℕ

pub record QualityTrend : Type 0 where
  pub site_id : Text
  pub domain : Text
  pub current_score : ℕ
  pub history : List ScoreSnapshot

pub record TopSite : Type 0 where
  pub site_id : Text
  pub domain : Text
  pub quality_score : ℕ
  pub total_handshakes : ℕ

pub record TelemetryReport : Type 0 where
  pub cache : CacheMetrics
  pub quality_trends : List QualityTrend
  pub recent_requests : List RequestTelemetry
  pub top_sites : List TopSite
  pub uptime_seconds : ℕ

-- `history.last().map(|s| s.score).unwrap_or(0)`
unfoldable pub last_score : List ScoreSnapshot → ℕ
last_score [] = 0
last_score (s ∷ []) = s.score
last_score (s ∷ t ∷ more) = last_score (t ∷ more)

abbrev pub text_of : Option Text → Text
text_of none = []
text_of (some t) = t

unfoldable pub domain_of : TelemetryTracker → Text → Text
domain_of t site_id = text_of (lookup site_id t.site_domains)

unfoldable pub trend_of : TelemetryTracker → Text × List ScoreSnapshot → QualityTrend
trend_of t (site_id, history) = record {
  site_id = site_id;
  domain = domain_of t site_id;
  current_score = last_score history;
  history = history;
}

unfoldable pub top_site_of : TelemetryTracker → Text × ℕ → TopSite
top_site_of t (site_id, count) = record {
  site_id = site_id;
  domain = domain_of t site_id;
  quality_score = last_score (history_of (lookup site_id t.quality_history));
  total_handshakes = count;
}

-- Behind the greater ones, in front of its equals.
unfoldable pub insert_desc {ℓ} : {A : Type ℓ} → (A → ℕ) → A → List A → List A
insert_desc key x [] = x ∷ []
insert_desc key x (y ∷ ys) = if leb (key y) (key x) then x ∷ y ∷ ys else y ∷ insert_desc key x ys

-- `sort_by(|a, b| key(b).cmp(&key(a)))`
unfoldable pub sort_desc {ℓ} : {A : Type ℓ} → (A → ℕ) → List A → List A
sort_desc key [] = []
sort_desc key (x ∷ xs) = insert_desc key x (sort_desc key xs)

unfoldable pub hit_ratio_of : ℕ → ℕ → ℕ × ℕ
hit_ratio_of hits misses =
    let total_requests = fetch_add hits misses in
    if ltb 0 total_requests then (hits, total_requests) else (0, 1)

abbrev pub entry_of : {A : Type 0} → ℕ × A → A
entry_of (slot, a) = a

-- `now` is the clock, in nanoseconds.
unfoldable pub report : TelemetryTracker → ℕ → ℕ → TelemetryReport
report t total_entries now = record {
  cache = record {
    hits = t.cache_hits;
    misses = t.cache_misses;
    hit_ratio = hit_ratio_of t.cache_hits t.cache_misses;
    total_entries = total_entries;
    entries_expired = t.entries_expired;
  };
  quality_trends = map (trend_of t) t.quality_history;
  recent_requests = take 20 (sort_desc (λ r. r.timestamp) (map entry_of t.recent_requests.slots));
  top_sites =
      take 10 (sort_desc (λ s. s.total_handshakes) (map (top_site_of t) t.handshake_counts));
  uptime_seconds = (now - t.start_time) / 1_000_000_000;
}
