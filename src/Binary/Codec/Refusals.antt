-- ===== src/Binary/Codec/Refusals.antt =====
-- What the deserializers of src/binary.rs refuse, and where they panic.
use rfo_protocol.Base.{
  ℕ, ◌+◌, ◌^◌, ◌≤◌, ◌<◌, ◌≡◌, ◌≢◌, sym, ap, ap₂, ◌∙◌, subst, true, some, [], ◌∷◌, ◌++◌, arith,
  Bytes, AreBytes, ok, err, le→ltb, lt→ltb, ◌==◌, ne→==, if◌then◌else◌, length, set, set-parts,
  set-append_left, set-append_right, length-set, get_elem?, All-append_left, All-append_right,
  be32_bytes, IsByte, from_be32, ◌/◌, ◌%◌,
}
use rfo_protocol.Payloads.{Json}
use rfo_protocol.Binary.Header.{
  known_type, max_payload_size, invalid_type, payload_too_large, checksum_mismatch, new_header,
  to_bytes, from_bytes,
}
use rfo_protocol.Binary.Header.RoundTrip.{from_bytes-new_header}
use rfo_protocol.Binary.Checksum.{calculate_checksum}
use rfo_protocol.Binary.Checksum.Detect.{calculate_checksum-lt, calculate_checksum-detects_byte}
use rfo_protocol.Binary.Codec.Framing.{
  buffer, checked_payload-buffer, length-buffer, take-buffer, header-length,
}
use rfo_protocol.Binary.Codec.RoundTrip.{frame_bytes-eq-buffer}
use rfo_protocol.Binary.Codec.{frame_bytes, checked_payload, serialize, deserialize}

-- A payload byte of a buffer stands behind the eleven bytes of the header.
set-buffer :
    (t c i b : ℕ) (payload rest : Bytes)
    → i < length payload
    → set (buffer t payload c rest) (11 + i) b ≡ buffer t (set payload i b) c rest
set-buffer t c i b payload rest h =
    let head = to_bytes (new_header t (length payload)) in
    set-append_right head (payload ++ (be32_bytes c ++ rest)) 11 i b
      (sym (header-length t (length payload)))
    ∙ ap₂ (λ x y. x ++ y) (ap (λ (n : ℕ). to_bytes (new_header t n)) (sym (length-set payload i b)))
        (set-append_left payload (be32_bytes c ++ rest) i b h)

-- A byte written over another changes the checksum.
pub calculate_checksum-set :
    (payload : Bytes) (i b : ℕ)
    → i < length payload
    → AreBytes payload
    → IsByte b
    → get_elem? payload i ≢ some b
    → calculate_checksum payload ≢ calculate_checksum (set payload i b)
calculate_checksum-set payload i b h small pb ne =
    let (before, a, after, e, g, s) = set-parts payload i h in
    let parts = subst AreBytes e small in
    let tail = All-append_right IsByte before (a ∷ after) parts in
    λ same.
      calculate_checksum-detects_byte before after a b (All-append_left IsByte before _ parts)
        tail.1 tail.0 pb (λ ab. ne (g ∙ ap some ab))
        (ap calculate_checksum (sym e) ∙ same ∙ ap calculate_checksum (s b))

mismatch :
    (c d : ℕ) (payload : Bytes)
    → c ≢ d
    → (if c == d then ok payload else err (checksum_mismatch c d)) ≡ err (checksum_mismatch c d)
mismatch c d payload ne = ground arith

checked_payload-corrupted :
    (t i b : ℕ) (payload : Bytes)
    → known_type t ≡ true
    → length payload ≤ max_payload_size
    → AreBytes payload
    → IsByte b
    → i < length payload
    → get_elem? payload i ≢ some b
    → checked_payload t (set (frame_bytes t payload) (11 + i) b)
      ≡ err (checksum_mismatch (calculate_checksum payload) (calculate_checksum (set payload i b)))
checked_payload-corrupted t i b payload k fits small pb h ne =
    let c = calculate_checksum payload in
    rw (frame_bytes-eq-buffer t payload (omega arith), set-buffer t c i b payload [] h)
      (checked_payload-buffer t c (set payload i b) [] k (omega (arith, length-set payload i b))
          (calculate_checksum-lt payload small)
        ∙ mismatch c _ (set payload i b) (calculate_checksum-set payload i b h small pb ne))

-- A frame of a known type and of a payload of bytes within the limit, with one payload byte changed,
-- whichever and to whatever other byte, is refused by its checksum.
pub deserialize-corrupted :
    {A : Type 0} (json : Json A) (t i b : ℕ) (payload : Bytes)
    → known_type t ≡ true
    → length payload ≤ max_payload_size
    → AreBytes payload
    → IsByte b
    → i < length payload
    → get_elem? payload i ≢ some b
    → deserialize json t (set (frame_bytes t payload) (11 + i) b)
      ≡ err (checksum_mismatch (calculate_checksum payload) (calculate_checksum (set payload i b)))
unfolding deserialize
deserialize-corrupted json t i b payload k fits small pb h ne =
    rw (checked_payload-corrupted t i b payload k fits small pb h ne)

-- A frame of a known type, within the payload limit, is refused by the deserializer of another type.
pub deserialize-wrong_type :
    {A : Type 0} (json : Json A) (t u : ℕ) (payload : Bytes)
    → known_type t ≡ true
    → length payload ≤ max_payload_size
    → t ≢ u
    → deserialize json u (frame_bytes t payload) ≡ err (invalid_type t)
unfolding deserialize checked_payload
deserialize-wrong_type json t u payload k fits ne =
    let c = calculate_checksum payload in
    rw
      (
        frame_bytes-eq-buffer t payload (omega arith),
        le→ltb (length (buffer t payload c [])) 15 (omega (arith, length-buffer t c payload [])),
        take-buffer t c payload [],
        from_bytes-new_header t (length payload) k fits,
      )
      (unfold new_header in rw (ne→== t u ne))

-- What a header says of a length past the limit.
from_bytes-too_large :
    (t n : ℕ)
    → known_type t ≡ true
    → n < 2 ^ 32
    → max_payload_size < n
    → from_bytes (to_bytes (new_header t n)) ≡ err (payload_too_large n)
unfolding from_bytes to_bytes new_header
from_bytes-too_large t n k small big =
    let e : from_be32 (n / 16777216 % 256) (n / 65536 % 256) (n / 256 % 256) (n % 256) ≡ n =
      omega arith in
    rw (e, k, lt→ltb max_payload_size n big)

-- The serializers have no limit: a payload past it is written, and then refused on every read.
pub deserialize-too_large :
    {A : Type 0} (json : Json A) (t u : ℕ) (value : A) (payload : Bytes)
    → known_type t ≡ true
    → json.to_vec value ≡ ok payload
    → max_payload_size < length payload
    → length payload < 2 ^ 32
    → (serialize json t value ≡ ok (frame_bytes t payload))
      × (deserialize json u (frame_bytes t payload) ≡ err (payload_too_large (length payload)))
unfolding serialize deserialize checked_payload
deserialize-too_large json t u value payload k wrote big small =
    let c = calculate_checksum payload in
    (
      rw wrote,
      rw (
        frame_bytes-eq-buffer t payload small,
        le→ltb (length (buffer t payload c [])) 15 (omega (arith, length-buffer t c payload [])),
        take-buffer t c payload [],
        from_bytes-too_large t (length payload) k small big,
      ),
    )
