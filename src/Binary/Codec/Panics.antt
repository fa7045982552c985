-- ===== src/Binary/Codec/Panics.antt =====
-- Where the deserializers of src/binary.rs panic: the length in the header is not compared with
-- the length of the buffer before the buffer is sliced.
use rfo_protocol.Base.{
  ℕ, ◌+◌, ◌-◌, from_be32, drop, ◌≤◌, ◌<◌, ◌≡◌, ◌≢◌, ◌↔◌, arith, Bytes, ok, panicked, ltb, le→ltb,
  lt→ltb, ltb→lt, ltb→le, Bool-cases, inl, inr, length, take, get_elem?-in, get_elem?-out,
}
use rfo_protocol.Binary.Header.{BinaryHeader, from_bytes}
use rfo_protocol.Binary.Codec.{slice, read_be32, checked_payload}

read_be32-in : (bytes : Bytes) (k : ℕ) → k + 4 ≤ length bytes → (n : ℕ) × (read_be32 bytes k ≡ ok n)
unfolding read_be32
read_be32-in bytes k h =
    let (a, ea) = get_elem?-in bytes k (omega arith) in
    let (b, eb) = get_elem?-in bytes (k + 1) (omega arith) in
    let (c, ec) = get_elem?-in bytes (k + 2) (omega arith) in
    let (d, ed) = get_elem?-in bytes (k + 3) (omega arith) in
    (from_be32 a b c d, rw (ea, eb, ec, ed))

read_be32-out : (bytes : Bytes) (k : ℕ) → length bytes < k + 4 → read_be32 bytes k ≡ panicked
unfolding read_be32
read_be32-out bytes k h = ground (arith, get_elem?-out bytes (k + 3) (omega arith))

slice-in :
    (bytes : Bytes) (i j : ℕ) → i ≤ j → j ≤ length bytes → (p : Bytes) × (slice bytes i j ≡ ok p)
unfolding slice
slice-in bytes i j h k = (take (j - i) (drop i bytes), rw (le→ltb j i h, le→ltb (length bytes) j k))

slice-out : (bytes : Bytes) (i j : ℕ) → length bytes < j → slice bytes i j ≡ panicked
unfolding slice
slice-out bytes i j h = ground (arith, lt→ltb (length bytes) j h)

module _ (t : ℕ) (bytes : Bytes) (h : BinaryHeader) (long : 15 ≤ length bytes)
    (header : from_bytes (take 11 bytes) ≡ ok h) (kind : h.payload_type ≡ t) where
  truncated : length bytes < 15 + h.length → checked_payload t bytes ≡ panicked
  unfolding checked_payload
  truncated short = elim (Bool-cases (ltb (length bytes) (11 + h.length))) [
    | inl no_payload ↦ ground (arith, slice-out bytes 11 (11 + h.length) (ltb→lt _ _ no_payload))
    | inr payload ↦
        let (p, ep) = slice-in bytes 11 (11 + h.length) (omega arith) (ltb→le _ _ payload) in
        ground (arith, ep, read_be32-out bytes (11 + h.length) (omega arith))
  ]

  whole : 15 + h.length ≤ length bytes → checked_payload t bytes ≢ panicked
  unfolding checked_payload
  whole fits =
      let (p, ep) = slice-in bytes 11 (11 + h.length) (omega arith) (omega arith) in
      let (n, en) = read_be32-in bytes (11 + h.length) (omega arith) in ground arith

  -- On a buffer with a good header of the wanted type, the deserializers panic exactly where the
  -- buffer is shorter than the header says.
  pub deserialize-panics_iff : (checked_payload t bytes ≡ panicked) ↔ (length bytes < 15 + h.length)
  deserialize-panics_iff = (
    (λ e. elim (Bool-cases (ltb (length bytes) (15 + h.length))) [
      | inl short ↦ ltb→lt _ _ short
      | inr fits ↦ absurd (whole (ltb→le _ _ fits) e)
    ]),
    truncated,
  )
