-- ===== src/Binary/Header.antt =====
-- The frame header and the errors of src/binary.rs.

pub mod RoundTrip
use rfo_protocol.Base.{
  ℕ, ◌*◌, Bool, ◌&&◌, ◌||◌, not, [], ◌∷◌, ◌++◌, Bytes, Text, Outcome, ok, err, ltb, ◌==◌,
  if◌then◌else◌, get_or, be16_bytes, be32_bytes, from_be16, from_be32, codes,
}
use rfo_protocol.Base.Keys.{text_beq}
use rfo_protocol.Base.Print.{decimal, hex8}

-- "RFO\0"
abbrev pub rfo_magic : Bytes
rfo_magic = 0x52 ∷ 0x46 ∷ 0x4f ∷ 0x00 ∷ []

abbrev pub protocol_version : ℕ
protocol_version = 1

abbrev pub type_mdoc : ℕ
type_mdoc = 0x01

abbrev pub type_doc : ℕ
type_doc = 0x02

abbrev pub type_batch : ℕ
type_batch = 0x03

abbrev pub type_handshake : ℕ
type_handshake = 0x10

abbrev pub type_resolve_opt : ℕ
type_resolve_opt = 0x11

abbrev pub type_core_file : ℕ
type_core_file = 0x12

abbrev pub type_error : ℕ
type_error = 0xff

abbrev pub max_payload_size : ℕ
max_payload_size = 10 * 1024 * 1024

pub data BinaryError : Type 0 where
  invalid_magic : BinaryError
  unsupported_version invalid_type payload_too_large : ℕ → BinaryError
  -- expected, actual
  checksum_mismatch : ℕ → ℕ → BinaryError
  serialization_error deserialization_error io_error : Text → BinaryError

pub record BinaryHeader : Type 0 where
  pub magic : Bytes
  pub version : ℕ
  pub payload_type : ℕ
  pub length : ℕ

-- `BinaryHeader::new`
unfoldable pub new_header : ℕ → ℕ → BinaryHeader
new_header payload_type length = record {
  magic = rfo_magic;
  version = protocol_version;
  payload_type = payload_type;
  length = length;
}

abbrev pub header_size : ℕ
header_size = 11

unfoldable pub to_bytes : BinaryHeader → Bytes
to_bytes h = h.magic ++ (be16_bytes h.version ++ (h.payload_type ∷ be32_bytes h.length))

unfoldable pub known_type : ℕ → Bool
known_type t = not (
    not (t == type_mdoc)
    && not (t == type_doc)
    && not (t == type_batch)
    && not (t == type_handshake)
    && not (t == type_resolve_opt)
    && not (t == type_core_file)
    && not (t == type_error))

-- The argument is `[u8; 11]`: `bytes[i]` is never out of range.
unfoldable pub from_bytes : Bytes → Outcome BinaryError BinaryHeader
from_bytes bytes =
    let at = λ (i : ℕ). get_or bytes i 0 in
    let magic : Bytes = at 0 ∷ at 1 ∷ at 2 ∷ at 3 ∷ [] in
    let version = from_be16 (at 4) (at 5) in
    let payload_type = at 6 in
    let length = from_be32 (at 7) (at 8) (at 9) (at 10) in
    if not (text_beq magic rfo_magic)
    then err invalid_magic
    else if not (version == protocol_version)
    then err (unsupported_version version)
    else if not (known_type payload_type)
    then err (invalid_type payload_type)
    else if ltb max_payload_size length
    then err (payload_too_large length)
    else ok
        (record { magic = magic; version = version; payload_type = payload_type; length = length })

-- `Display for BinaryError`
unfoldable pub display : BinaryError → Text
display invalid_magic = codes "invalid magic bytes"
display (unsupported_version v) = codes "unsupported version: " ++ decimal v
display (invalid_type t) = codes "invalid payload type: " ++ decimal t
display (payload_too_large s) = codes "payload too large: " ++ (decimal s ++ codes " bytes")
display (checksum_mismatch expected actual) =
    codes "checksum mismatch: expected " ++ (hex8 expected ++ (codes ", got " ++ hex8 actual))
display (serialization_error e) = codes "serialization error: " ++ e
display (deserialization_error e) = codes "deserialization error: " ++ e
display (io_error e) = codes "IO error: " ++ e
