-- ===== src/Payloads.antt =====
-- src/rfo_protocol.rs: the payloads that the protocol carries. A `HashMap` is an association list.
use rfo_protocol.Base.{ℕ, List, Text, Outcome, Bytes}
use rfo_protocol.Base.Int.{ℤ}
use rfo_protocol.Base.Keys.{Assoc}

pub record RfoHeader : Type 0 where
  pub site_id : Text
  pub coordinates : Assoc Text Text
  pub quality_score : ℕ

-- `RfoHeader::new`
unfoldable pub new_rfo_header : Text → Assoc Text Text → ℕ → RfoHeader
new_rfo_header site_id coordinates quality_score = record {
  site_id = site_id;
  coordinates = coordinates;
  quality_score = quality_score;
}

pub record QaPair : Type 0 where
  pub question : Text
  pub answer : Text

pub record MiniDocPayload : Type 0 where
  pub summary : Text
  pub token_count : ℕ
  pub qa_pairs : List QaPair

pub record FullDocPayload : Type 0 where
  pub raw_markdown : Text
  pub data_tables : List Text
  pub verification_signature : Text

pub data PayloadType : Type 0 where
  doc mdoc : PayloadType

pub record HandshakeRequest : Type 0 where
  pub domain_url : Text
  pub coordinates : Assoc Text Text
  pub requested_payload : PayloadType
  pub nonce : Text
  pub timestamp : ℤ

pub data Payload : Type 0 where
  full : FullDocPayload → Payload
  mini : MiniDocPayload → Payload

pub record HandshakeResponse : Type 0 where
  pub header : RfoHeader
  pub payload : Payload
  pub processing_time_ms : ℕ
  pub nonce : Text

-- `cached_at` is in nanoseconds since the epoch.
pub record CacheEntry : Type 0 where
  pub header : RfoHeader
  pub doc : FullDocPayload
  pub mdoc : MiniDocPayload
  pub cached_at : ℕ

-- The rows of the tables; a `Uuid` is its number, and `coordinates` a value of serde_json.
pub record TelemetryLog : Type 0 where
  pub id : ℕ
  pub site_id : Text
  pub request_timestamp : ℕ
  pub nonce : Text
  pub processing_time_ms : ℤ
  pub client_ip : Text
  pub status_code : ℤ
  pub created_at : ℕ

pub record SiteRecord (V : Type 0) : Type 0 where
  pub id : ℕ
  pub site_id : Text
  pub domain_url : Text
  pub quality_score : ℤ
  pub coordinates : V
  pub created_at : ℕ
  pub updated_at : ℕ

-- `serde_json` at one type: `to_vec` and `from_slice`, with their errors as text.
pub record Json (A : Type 0) : Type 0 where
  pub to_vec : A → Outcome Text Bytes
  pub from_slice : Bytes → Outcome Text A
