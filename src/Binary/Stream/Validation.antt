-- ===== src/Binary/Stream/Validation.antt =====
-- The checksum test of the stream reader of src/binary.rs.
use rfo_protocol.Base.{ℕ, ◌^◌, ◌<◌, ◌≡◌, ◌≢◌, refl, ap, ◌∙◌, true, false, Bytes, ok, ◌==◌, ne→==}
use rfo_protocol.Binary.Header.{new_header}
use rfo_protocol.Binary.Checksum.{calculate_checksum}
use rfo_protocol.Binary.Codec.Framing.{slice-buffer, read_be32-buffer}
use rfo_protocol.Binary.Stream.{BinaryStreamReader, validate_checksum}
use rfo_protocol.Binary.Stream.Chunks.{reader_at}

module _ (t c k : ℕ) (payload rest : Bytes) where
  abbrev pub validated : BinaryStreamReader
  validated = record (reader_at t c payload rest k) { checksum_validated = true }

  -- The first call compares the checksum of the frame with that of its payload, wherever the reader
  -- stands, and marks the reader; every later call answers `true`, whatever the first one said.
  pub validate_checksum-buffer :
      c < 2 ^ 32
      → (validate_checksum (reader_at t c payload rest k)
          ≡ ok (c == calculate_checksum payload, validated))
        × (validate_checksum validated ≡ ok (true, validated))
  unfolding validate_checksum new_header
  validate_checksum-buffer small =
      (rw (slice-buffer t c payload rest, read_be32-buffer t c payload rest small), refl)

  -- A reader whose frame carries a wrong checksum says so once, and then says that it is right.
  pub validate_checksum-forgets :
      c < 2 ^ 32
      → c ≢ calculate_checksum payload
      → (r : BinaryStreamReader) × (validate_checksum (reader_at t c payload rest k)
          ≡ ok (false, r))
        × (validate_checksum r ≡ ok (true, r))
  validate_checksum-forgets small wrong =
      let (first, second) = validate_checksum-buffer small in
      (
        validated,
        first ∙ ap (λ b. ok (b, validated)) (ne→== c (calculate_checksum payload) wrong),
        second,
      )
