-- ===== src/Handlers.antt =====
-- src/server/handlers.rs: the state of the server, and the requests that read what is compiled. A
-- handler returns its answer and the new state, an error is a status and a text, and a panic ends
-- the request. `Utc::now()` is an argument wherever it is read. A statement handed to PostgreSQL is
-- an entry of `db`; its errors are only logged.
pub mod Handshake
pub mod Batch
pub mod Reads
pub mod Replay
pub mod Serving
pub mod Schedules
pub mod Tasks
use rfo_protocol.Base.{
  ℕ, zero, suc, ◌+◌, ◌-◌, ◌%◌, ◌^◌, Bool, true, false, not, ◌&&◌, ◌||◌, Option, none, some, List,
  [], ◌∷◌, ◌++◌, Bytes, Text, codes, Outcome, ok, err, panicked, ◌>>=◌, map_err, unwrap, ltb,
  if◌then◌else◌, length,
}
use rfo_protocol.Base.Int.{ℤ, pos, negsuc}
use rfo_protocol.Base.Keys.{Assoc, text_eq, text_beq, lookup, insert}
use rfo_protocol.Base.Print.{decimal}
use rfo_protocol.Payloads.{
  FullDocPayload, MiniDocPayload, PayloadType, doc, mdoc, Payload, full, mini, CacheEntry, Json,
}
use rfo_protocol.Protocol.{
  PayloadEncoding, json, message_pack, CapabilityRequest, CapabilityResponse,
}
use rfo_protocol.Telemetry.Report.{TelemetryReport, report}
use rfo_protocol.Cache
use rfo_protocol.Cache.{RfoCache, get_by_domain}
use rfo_protocol.Telemetry.{TelemetryTracker, record_cache_hit, record_cache_miss}
use rfo_protocol.Limits.Rate.{RateLimitState}
use rfo_protocol.Limits.Ddos.{DdosProtection}
use rfo_protocol.Audit.{AuditLogger}
use rfo_protocol.Auth.{ApiKeyStore}
use rfo_protocol.WebSocket.{WsManager}

-- The statements of `upsert_site` and of `log_handshake`.
pub data Statement : Type 0 where
  upsert : Text → Text → ℤ → Assoc Text Text → Statement
  log_row : Text → ℕ → Text → ℤ → Text → ℕ → Statement

pub record AppState (V : Type 0) : Type 0 where
  pub db : List Statement
  pub cache : RfoCache
  pub rate_limit : RateLimitState
  pub telemetry : TelemetryTracker
  pub api_keys : ApiKeyStore
  pub audit : AuditLogger V
  pub ddos : DdosProtection
  pub ws_manager : WsManager

-- `(StatusCode, String)`
abbrev pub Failure : Type 0
Failure = ℕ × Text

abbrev pub version_text : Text
version_text = codes "1.0.0"

abbrev pub server_features : List Text
server_features =
    codes "handshake" ∷ codes "batch-handshake" ∷ codes "websocket" ∷ codes "streaming" ∷ []

unfoldable pub offers_message_pack : List PayloadEncoding → Bool
offers_message_pack [] = false
offers_message_pack (message_pack ∷ more) = true
offers_message_pack (json ∷ more) = offers_message_pack more

unfoldable pub has_feature : Text → List Text → Bool
has_feature f [] = false
has_feature f (g ∷ more) = text_beq f g || has_feature f more

-- `.filter(|f| server_features.contains(f))`
unfoldable pub common_features : List Text → List Text
common_features [] = []
common_features (f ∷ more) =
    let rest = common_features more in if has_feature f server_features then f ∷ rest else rest

unfoldable pub negotiate : CapabilityRequest → CapabilityResponse
negotiate req = record {
  negotiated_encoding = if offers_message_pack req.supported_encodings then message_pack else json;
  supported_features = common_features req.supported_features;
  protocol_version = version_text;
  server_capabilities = server_features;
}

-- `n as i32`, of a u32 and of a u64.
unfoldable pub as_i32 : ℕ → ℤ
as_i32 n = let low = n % 2 ^ 32 in if ltb low (2 ^ 31) then pos low else negsuc (2 ^ 32 - low - 1)

unfoldable pub not_compiled : Text → Text → Failure
not_compiled kind domain = (
  404,
  codes "No ."
      ++ (kind ++ (codes " compiled for '" ++ (domain ++ codes "'. Run a handshake first."))),
)

module _ {V : Type 0} where
  unfoldable pub upsert_site : AppState V → Text → Text → ℕ → Assoc Text Text → AppState V
  upsert_site s site_id domain_url quality_score coordinates = record s {
    db = s.db ++ (upsert site_id domain_url (as_i32 quality_score) coordinates ∷ []);
  }

  unfoldable pub log_handshake : AppState V → Text → Text → ℕ → ℕ → ℕ → AppState V
  log_handshake s site_id nonce timestamp processing_time_ms status_code =
      let row =
        log_row site_id timestamp nonce (as_i32 processing_time_ms) (codes "internal")
          status_code in
      record s { db = s.db ++ (row ∷ []) }

  unfoldable pub hit_state : AppState V → AppState V
  hit_state s = record s { telemetry = record_cache_hit s.telemetry }

  unfoldable pub miss_state : AppState V → AppState V
  miss_state s = record s { telemetry = record_cache_miss s.telemetry }

  -- The body that `get_doc` and `get_mdoc` have in common, from the entry that is found.
  unfoldable pub get_part {ℓ} :
      {A : Type ℓ}
      → (CacheEntry → A)
      → Text
      → AppState V
      → Text
      → Option CacheEntry
      → Outcome Failure A × AppState V
  get_part part kind s domain none = (err (not_compiled kind domain), miss_state s)
  get_part part kind s domain (some entry) = (ok (part entry), hit_state s)

  unfoldable pub get_doc : AppState V → Text → ℕ → Outcome Failure FullDocPayload × AppState V
  unfolding get_part
  get_doc s domain now =
      get_part (λ entry. entry.doc) (codes "doc") s domain (get_by_domain s.cache domain now)

  unfoldable pub get_mdoc : AppState V → Text → ℕ → Outcome Failure MiniDocPayload × AppState V
  unfolding get_part
  get_mdoc s domain now =
      get_part (λ entry. entry.mdoc) (codes "mdoc") s domain (get_by_domain s.cache domain now)

module _ {V : Type 0} where
  unfoldable pub get_telemetry : AppState V → ℕ → TelemetryReport
  get_telemetry s now = report s.telemetry (Cache.len s.cache) now

-- The headers of a response, and its body; a text that is no header value panics.
unfoldable pub streamed :
    (Text → Option Text) → Outcome Text Bytes → Text → Outcome Failure (Assoc Text Text × Bytes)
streamed header_value payload site_id = do
  bytes ← map_err (λ e. (500, e)) payload
  size ← unwrap (header_value (decimal (length bytes)))
  site ← unwrap (header_value site_id)
  ok (
    (codes "content-type", codes "application/json")
        ∷ (codes "content-length", size)
        ∷ (codes "x-rfo-protocol-version", version_text)
        ∷ (codes "x-rfo-site-id", site)
        ∷ [],
    bytes,
  )

module _ {V : Type 0} (header_value : Text → Option Text) where
  unfoldable pub stream_doc :
      Json FullDocPayload
      → AppState V
      → Text
      → ℕ
      → Outcome Failure (Assoc Text Text × Bytes) × AppState V
  stream_doc serde s domain now = elim (get_by_domain s.cache domain now) [
    | some entry ↦
        (streamed header_value (serde.to_vec entry.doc) entry.header.site_id, hit_state s)
    | none ↦ (err (not_compiled (codes "doc") domain), miss_state s)
  ]

  unfoldable pub stream_mdoc :
      Json MiniDocPayload
      → AppState V
      → Text
      → ℕ
      → Outcome Failure (Assoc Text Text × Bytes) × AppState V
  stream_mdoc serde s domain now = elim (get_by_domain s.cache domain now) [
    | some entry ↦
        (streamed header_value (serde.to_vec entry.mdoc) entry.header.site_id, hit_state s)
    | none ↦ (err (not_compiled (codes "mdoc") domain), miss_state s)
  ]
