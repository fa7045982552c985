-- ===== src/Tests/Codec.antt =====
-- Frames of src/binary.rs and src/transport.rs on small inputs. The JSON library is one that writes
-- a text as it is.
use rfo_protocol.Base.{
  ℕ, ◌+◌, ◌≡◌, ◌↔◌, ◌≢◌, refl, true, false, some, List, [], ◌∷◌, ◌++◌, Bytes, AreBytes, Text, codes,
  ok, err, ◌>>=◌, arith, length, set, panicked, Option, ◌<◌,
}
use rfo_protocol.Base.Keys.{text_eq}
use rfo_protocol.Payloads.{RfoHeader, MiniDocPayload, FullDocPayload, Json}
use rfo_protocol.Binary.Header.{
  BinaryHeader, known_type, type_mdoc, type_doc, to_bytes, from_bytes, checksum_mismatch,
}
use rfo_protocol.Binary.Header.RoundTrip.{IsWellFormed, from_bytes_iff}
use rfo_protocol.Binary.Checksum.{calculate_checksum}
use rfo_protocol.Binary.Checksum.Detect.{calculate_checksum-detects_byte}
use rfo_protocol.Binary.Codec.{
  frame_bytes, checked_payload, serialize_mdoc, serialize_doc, serialize_batch, deserialize_mdoc,
  deserialize_doc, deserialize_batch, deserialize,
}
use rfo_protocol.Binary.Codec.Framing.{buffer}
use rfo_protocol.Binary.Codec.RoundTrip.{Written, payload_round_trips}
use rfo_protocol.Binary.Codec.Refusals.{deserialize-corrupted}
use rfo_protocol.Binary.Codec.Panics.{deserialize-panics_iff}
use rfo_protocol.Binary.Stream.{
  BinaryStreamReader, new_reader, read_chunks, is_complete, validate_checksum,
}
use rfo_protocol.Binary.Stream.Chunks.{sum, reader_at, read_chunks-frame}
use rfo_protocol.Binary.Stream.Validation.{validate_checksum-forgets}

abbrev header : RfoHeader
header = record { site_id = codes "s"; coordinates = []; quality_score = 7 }

abbrev mini : Text → MiniDocPayload
mini text = record { summary = text; token_count = 2; qa_pairs = [] }

abbrev full : Text → FullDocPayload
full text = record { raw_markdown = text; data_tables = []; verification_signature = codes "v" }

abbrev mini_json : Json (RfoHeader × MiniDocPayload)
mini_json = record { to_vec = λ v. ok v.1.summary; from_slice = λ b. ok (header, mini b) }

abbrev full_json : Json (RfoHeader × FullDocPayload)
full_json = record { to_vec = λ v. ok v.1.raw_markdown; from_slice = λ b. ok (header, full b) }

abbrev batch_json : Json (List (RfoHeader × MiniDocPayload × FullDocPayload))
batch_json = record { to_vec = λ v. ok []; from_slice = λ b. ok [] }

abbrev hi : Bytes
hi = 104 ∷ 105 ∷ []

hi-AreBytes : AreBytes hi
hi-AreBytes = (omega arith, (omega arith, tt))

mini-Written : Written mini_json (header, mini hi) hi
mini-Written = record { wrote = refl; reads = refl; bytes = hi-AreBytes; fits = omega arith }

full-Written : Written full_json (header, full hi) hi
full-Written = record { wrote = refl; reads = refl; bytes = hi-AreBytes; fits = omega arith }

batch-Written : Written batch_json [] []
batch-Written = record { wrote = refl; reads = refl; bytes = tt; fits = omega arith }

payload_round_trips_example :
    ((serialize_mdoc mini_json (mini hi) header >>= deserialize_mdoc mini_json)
      ≡ ok (header, mini hi))
    × ((serialize_doc full_json (full hi) header >>= deserialize_doc full_json)
        ≡ ok (header, full hi))
    × ((serialize_batch batch_json [] >>= deserialize_batch batch_json) ≡ ok [])
payload_round_trips_example =
    payload_round_trips mini_json full_json batch_json header (mini hi) (full hi) [] hi hi []
      mini-Written full-Written batch-Written

abbrev old_byte : Option ℕ
old_byte = some 105

other_byte : old_byte ≢ some 33
other_byte e = ground (arith, e)

deserialize-corrupted_example :
    deserialize mini_json type_mdoc (set (frame_bytes type_mdoc hi) 12 33)
    ≡ err (checksum_mismatch (calculate_checksum hi) (calculate_checksum (104 ∷ 33 ∷ [])))
deserialize-corrupted_example =
    deserialize-corrupted mini_json type_mdoc 1 33 hi (unfold known_type in refl) (omega arith)
      hi-AreBytes (omega arith) (omega arith) other_byte

calculate_checksum-detects_byte_example : calculate_checksum hi ≢ calculate_checksum (104 ∷ 33 ∷ [])
calculate_checksum-detects_byte_example =
    calculate_checksum-detects_byte (104 ∷ []) [] 105 33 (omega arith, tt) tt (omega arith)
      (omega arith) (λ e. absurd (omega (arith, e)))

abbrev header_bytes : Bytes
header_bytes = 0x52 ∷ 0x46 ∷ 0x4f ∷ 0 ∷ 0 ∷ 1 ∷ 2 ∷ 0 ∷ 0 ∷ 1 ∷ 5 ∷ []

header_bytes-AreBytes : AreBytes header_bytes
header_bytes-AreBytes = (
  omega arith,
  (
    omega arith,
    (
      omega arith,
      (
        omega arith,
        (
          omega arith,
          (
            omega arith,
            (omega arith, (omega arith, (omega arith, (omega arith, (omega arith, tt))))),
          ),
        ),
      ),
    ),
  ),
)

abbrev doc_header : BinaryHeader
doc_header = record {
  magic = 0x52 ∷ 0x46 ∷ 0x4f ∷ 0 ∷ [];
  version = 1;
  payload_type = 2;
  length = 261;
}

from_bytes_iff_example :
    (from_bytes header_bytes ≡ ok doc_header)
    ↔ (IsWellFormed doc_header × (to_bytes doc_header ≡ header_bytes))
from_bytes_iff_example = from_bytes_iff header_bytes doc_header refl header_bytes-AreBytes

from_bytes_run : from_bytes header_bytes ≡ ok doc_header
unfolding from_bytes known_type
from_bytes_run = refl

-- A header that promises 261 bytes, and four bytes after it.
abbrev cut_short : Bytes
cut_short = header_bytes ++ (1 ∷ 2 ∷ 3 ∷ 4 ∷ [])

deserialize-panics_iff_example :
    (checked_payload type_doc cut_short ≡ panicked) ↔ (length cut_short < 15 + 261)
deserialize-panics_iff_example =
    deserialize-panics_iff type_doc cut_short doc_header (omega arith) from_bytes_run refl

read_chunks-frame_example :
    ((new_reader (buffer type_mdoc hi 5 []) >>= read_chunks (1 ∷ 4 ∷ []))
      ≡ ok (hi, reader_at type_mdoc 5 hi [] 2))
    × (is_complete (reader_at type_mdoc 5 hi [] 2) ≡ true)
unfolding sum
read_chunks-frame_example =
    read_chunks-frame type_mdoc 5 hi [] (1 ∷ 4 ∷ []) (unfold known_type in refl) (omega arith)

wrong_checksum : 5 ≢ calculate_checksum hi
unfolding calculate_checksum
wrong_checksum e = absurd (omega (arith, e))

validate_checksum-forgets_example :
    (r : BinaryStreamReader) × (validate_checksum (reader_at type_mdoc 5 hi [] 0) ≡ ok (false, r))
    × (validate_checksum r ≡ ok (true, r))
validate_checksum-forgets_example =
    validate_checksum-forgets type_mdoc 5 0 hi [] (omega arith) wrong_checksum
