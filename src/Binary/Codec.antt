-- ===== src/Binary/Codec.antt =====
-- `serialize_*` and `deserialize_*` of src/binary.rs. The three functions of each family have one
-- body but for the type marker and the type that `serde_json` writes or reads, here a parameter.
pub mod Framing
pub mod RoundTrip
pub mod Refusals
pub mod Panics
use rfo_protocol.Base.{
  ℕ, ◌+◌, ◌-◌, Bool, not, ◌||◌, List, [], ◌∷◌, ◌++◌, Bytes, Text, codes, Outcome, ok, err, panicked,
  ◌>>=◌, map_err, unwrap, ltb, ◌==◌, if◌then◌else◌, length, take, drop, get_elem?, be32_bytes,
  from_be32, as_u32,
}
use rfo_protocol.Payloads.{RfoHeader, MiniDocPayload, FullDocPayload, Json}
use rfo_protocol.Binary.Header.{
  BinaryError, BinaryHeader, invalid_type, checksum_mismatch, serialization_error,
  deserialization_error, type_mdoc, type_doc, type_batch, new_header, header_size, to_bytes,
  from_bytes,
}
use rfo_protocol.Binary.Checksum.{calculate_checksum}

-- The buffer that each serializer fills: header, payload, checksum.
unfoldable pub frame_bytes : ℕ → Bytes → Bytes
frame_bytes payload_type payload =
    let bin_header = new_header payload_type (as_u32 (length payload)) in
    to_bytes bin_header ++ (payload ++ be32_bytes (calculate_checksum payload))

-- `&data[start..end]`
unfoldable pub slice : Bytes → ℕ → ℕ → Outcome BinaryError Bytes
slice bytes start end =
    if ltb end start || ltb (length bytes) end
    then panicked
    else ok (take (end - start) (drop start bytes))

-- `u32::from_be_bytes([data[i], data[i + 1], data[i + 2], data[i + 3]])`
unfoldable pub read_be32 : Bytes → ℕ → Outcome BinaryError ℕ
read_be32 bytes i = do
  a ← unwrap (get_elem? bytes i)
  b ← unwrap (get_elem? bytes (i + 1))
  c ← unwrap (get_elem? bytes (i + 2))
  d ← unwrap (get_elem? bytes (i + 3))
  ok (from_be32 a b c d)

-- The part of the deserializers before `serde_json`: the checked payload.
unfoldable pub checked_payload : ℕ → Bytes → Outcome BinaryError Bytes
checked_payload payload_type bytes =
    if ltb (length bytes) (header_size + 4)
    then err (deserialization_error (codes "data too short"))
    else do
      bin_header ← from_bytes (take 11 bytes)
      if not (bin_header.payload_type == payload_type)
          then err (invalid_type bin_header.payload_type)
          else do
            let payload_end = header_size + bin_header.length
            payload ← slice bytes header_size payload_end
            expected_checksum ← read_be32 bytes payload_end
            let actual_checksum = calculate_checksum payload
            if not (expected_checksum == actual_checksum)
                then err (checksum_mismatch expected_checksum actual_checksum)
                else ok payload

module _ {A : Type 0} (json : Json A) where
  unfoldable pub serialize : ℕ → A → Outcome BinaryError Bytes
  serialize payload_type value = do
    payload ← map_err serialization_error (json.to_vec value)
    ok (frame_bytes payload_type payload)

  unfoldable pub deserialize : ℕ → Bytes → Outcome BinaryError A
  deserialize payload_type bytes = do
    payload ← checked_payload payload_type bytes
    map_err deserialization_error (json.from_slice payload)

unfoldable pub serialize_mdoc :
    Json (RfoHeader × MiniDocPayload) → MiniDocPayload → RfoHeader → Outcome BinaryError Bytes
unfolding serialize
serialize_mdoc json mdoc header = serialize json type_mdoc (header, mdoc)

unfoldable pub serialize_doc :
    Json (RfoHeader × FullDocPayload) → FullDocPayload → RfoHeader → Outcome BinaryError Bytes
unfolding serialize
serialize_doc json doc header = serialize json type_doc (header, doc)

unfoldable pub serialize_batch :
    Json (List (RfoHeader × MiniDocPayload × FullDocPayload))
    → List (RfoHeader × MiniDocPayload × FullDocPayload)
    → Outcome BinaryError Bytes
unfolding serialize
serialize_batch json items = serialize json type_batch items

unfoldable pub deserialize_mdoc :
    Json (RfoHeader × MiniDocPayload) → Bytes → Outcome BinaryError (RfoHeader × MiniDocPayload)
unfolding deserialize
deserialize_mdoc json bytes = deserialize json type_mdoc bytes

unfoldable pub deserialize_doc :
    Json (RfoHeader × FullDocPayload) → Bytes → Outcome BinaryError (RfoHeader × FullDocPayload)
unfolding deserialize
deserialize_doc json bytes = deserialize json type_doc bytes

unfoldable pub deserialize_batch :
    Json (List (RfoHeader × MiniDocPayload × FullDocPayload))
    → Bytes
    → Outcome BinaryError (List (RfoHeader × MiniDocPayload × FullDocPayload))
unfolding deserialize
deserialize_batch json bytes = deserialize json type_batch bytes
