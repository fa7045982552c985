-- ===== src/Binary/Stream.antt =====
-- `BinaryStreamReader` of src/binary.rs. A method that takes `&mut self` returns the new reader.
pub mod Chunks
pub mod Validation
use rfo_protocol.Base.{
  ℕ, ◌+◌, ◌-◌, Bool, true, false, List, [], ◌∷◌, ◌++◌, Bytes, codes, Outcome, ok, err, ◌>>=◌, ltb,
  leb, ◌==◌, if◌then◌else◌, length, take, min,
}
use rfo_protocol.Binary.Header.{
  BinaryError, BinaryHeader, deserialization_error, header_size, from_bytes,
}
use rfo_protocol.Binary.Checksum.{calculate_checksum}
use rfo_protocol.Binary.Codec.{slice, read_be32}

pub record BinaryStreamReader : Type 0 where
  pub header : BinaryHeader
  pub bytes : Bytes
  pub position : ℕ
  pub checksum_validated : Bool

-- `BinaryStreamReader::new`
unfoldable pub new_reader : Bytes → Outcome BinaryError BinaryStreamReader
new_reader bytes =
    if ltb (length bytes) (header_size + 4)
    then err (deserialization_error (codes "data too short"))
    else do
      header ← from_bytes (take 11 bytes)
      ok (record {
        header = header;
        bytes = bytes;
        position = header_size;
        checksum_validated = false;
      })

-- `saturating_sub` is the subtraction of ℕ.
unfoldable pub read_chunk :
    BinaryStreamReader → ℕ → Outcome BinaryError (Bytes × BinaryStreamReader)
read_chunk r max_bytes =
    let payload_end = header_size + r.header.length in
    let remaining = payload_end - r.position in
    let to_read = min max_bytes remaining in
    if to_read == 0 then ok ([], r) else do
      chunk ← slice r.bytes r.position (r.position + to_read)
      ok (chunk, record r { position = r.position + to_read })

unfoldable pub validate_checksum :
    BinaryStreamReader → Outcome BinaryError (Bool × BinaryStreamReader)
validate_checksum r = if r.checksum_validated then ok (true, r) else do
  let payload_end = header_size + r.header.length
  payload ← slice r.bytes header_size payload_end
  expected_checksum ← read_be32 r.bytes payload_end
  let actual_checksum = calculate_checksum payload
  ok (expected_checksum == actual_checksum, record r { checksum_validated = true })

-- `payload_type`, `payload_length`
unfoldable pub reader_type : BinaryStreamReader → ℕ
reader_type r = r.header.payload_type

unfoldable pub reader_length : BinaryStreamReader → ℕ
reader_length r = r.header.length

unfoldable pub is_complete : BinaryStreamReader → Bool
is_complete r = leb (header_size + r.header.length) r.position

-- A client that asks for chunks of these sizes, one after the other.
pub read_chunks : List ℕ → BinaryStreamReader → Outcome BinaryError (Bytes × BinaryStreamReader)
read_chunks [] r = ok ([], r)
read_chunks (n ∷ ns) r = do
  first ← read_chunk r n
  rest ← read_chunks ns first.1
  ok (first.0 ++ rest.0, rest.1)
