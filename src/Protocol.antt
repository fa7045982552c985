-- ===== src/Protocol.antt =====
-- src/protocol.rs: protocol versions, payload encodings and the messages of the protocol.
pub mod Versions
use rfo_protocol.Base.{
  ℕ, ◌+◌, ◌-◌, ◌*◌, Bool, true, false, ◌&&◌, ◌||◌, Option, none, some, List, [], ◌∷◌, ◌++◌, Bytes,
  Text, codes, ltb, leb, ◌==◌, if◌then◌else◌,
}
use rfo_protocol.Base.Keys.{text_beq}
use rfo_protocol.Base.Print.{decimal}
use rfo_protocol.Base.Strings.{split, to_lowercase}
use rfo_protocol.Payloads.{HandshakeRequest, PayloadType}

pub record ProtocolVersion : Type 0 where
  pub major : ℕ
  pub minor : ℕ
  pub patch : ℕ

-- The digits of a number, read from the left on from `n`; a u16 that overflows is an error.
unfoldable pub parse_digits : ℕ → Text → Option ℕ
parse_digits n [] = some n
parse_digits n (c ∷ cs) =
    let next = n * 10 + (c - 48) in
    let rest = parse_digits next cs in
    if (leb 48 c && leb c 57) && ltb next 65536 then rest else none

-- `str::parse::<u16>`: digits, at least one, behind a `+` or not.
unfoldable pub parse_u16 : Text → Option ℕ
unfolding parse_digits
parse_u16 [] = none
parse_u16 (c ∷ []) = parse_digits 0 (c ∷ [])
parse_u16 (c ∷ d ∷ cs) = if c == 43 then parse_digits 0 (d ∷ cs) else parse_digits 0 (c ∷ d ∷ cs)

-- `parts[i].parse().ok()?` for the three parts.
unfoldable pub from_parts : Option ℕ → Option ℕ → Option ℕ → Option ProtocolVersion
from_parts (some major) (some minor) (some patch) =
    some (record { major = major; minor = minor; patch = patch })
from_parts none minor patch = none
from_parts (some major) none patch = none
from_parts (some major) (some minor) none = none

unfoldable pub from_three : List Text → Option ProtocolVersion
unfolding from_parts
from_three [] = none
from_three (a ∷ []) = none
from_three (a ∷ b ∷ []) = none
from_three (a ∷ b ∷ c ∷ []) = from_parts (parse_u16 a) (parse_u16 b) (parse_u16 c)
from_three (a ∷ b ∷ c ∷ d ∷ more) = none

-- `ProtocolVersion::parse`
unfoldable pub parse : Text → Option ProtocolVersion
unfolding from_three
parse s = from_three (split 46 s)

-- `Display for ProtocolVersion`
unfoldable pub display : ProtocolVersion → Text
display v = decimal v.major ++ (46 ∷ (decimal v.minor ++ (46 ∷ decimal v.patch)))

-- `self >= min`, by the derived order: the fields from the first one on.
unfoldable pub is_at_least : ProtocolVersion → ProtocolVersion → Bool
is_at_least v min =
    ltb min.major v.major
    || ((v.major == min.major)
        && (ltb min.minor v.minor || ((v.minor == min.minor) && leb min.patch v.patch)))

unfoldable pub is_compatible : ProtocolVersion → ProtocolVersion → Bool
is_compatible v min = (v.major == min.major) && is_at_least v min

pub data PayloadEncoding : Type 0 where
  json message_pack : PayloadEncoding

unfoldable pub from_header : Text → PayloadEncoding
from_header s =
    let lower = to_lowercase s in
    if text_beq lower (codes "msgpack")
      || text_beq lower (codes "messagepack")
      || text_beq lower (codes "application/msgpack")
    then message_pack
    else json

unfoldable pub content_type : PayloadEncoding → Text
content_type json = codes "application/json"
content_type message_pack = codes "application/msgpack"

pub record StreamChunk : Type 0 where
  pub chunk_index : ℕ
  pub total_chunks : ℕ
  pub data_bytes : Bytes
  pub checksum : Text

pub record StreamRequest : Type 0 where
  pub domain_url : Text
  pub payload_type : PayloadType
  pub chunk_size : Option ℕ

pub data WsMessage : Type 0 where
  subscribe unsubscribe : List Text → WsMessage
  handshake : HandshakeRequest → WsMessage
  update : Text → ℕ → Text → WsMessage
  ping pong : WsMessage
  error : ℕ → Text → WsMessage

pub record CapabilityRequest : Type 0 where
  pub supported_encodings : List PayloadEncoding
  pub supported_features : List Text
  pub protocol_version : Text

pub record CapabilityResponse : Type 0 where
  pub negotiated_encoding : PayloadEncoding
  pub supported_features : List Text
  pub protocol_version : Text
  pub server_capabilities : List Text
