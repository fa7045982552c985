-- ===== src/Binary/Header/RoundTrip.antt =====
-- Printing and parsing of the frame header: `BinaryHeader::to_bytes` and `from_bytes`.
use rfo_protocol.Base.{
  ℕ, ◌≤◌, ◌≡◌, ◌↔◌, true, [], ◌∷◌, arith, Bytes, AreBytes, IsByte, ok, length, ◌/◌, ◌%◌, sym, subst,
  le→ltb, from_be32, eq-tabulate,
}
use rfo_protocol.Base.Keys.{text_beq_iff}
use rfo_protocol.Binary.Header.{
  BinaryHeader, rfo_magic, protocol_version, max_payload_size, known_type, new_header, to_bytes,
  from_bytes,
}

-- A header that the program sends: this protocol and version, a known type and a length in bounds.
pub record IsWellFormed (h : BinaryHeader) : Type 0 where
  pub our_magic : h.magic ≡ rfo_magic
  pub our_version : h.version ≡ protocol_version
  pub our_type : known_type h.payload_type ≡ true
  pub in_bounds : h.length ≤ max_payload_size

pub known_type-IsByte : (t : ℕ) → known_type t ≡ true → IsByte t
unfolding known_type
known_type-IsByte t h = ground arith

pub from_bytes-new_header :
    (t n : ℕ)
    → known_type t ≡ true
    → n ≤ max_payload_size
    → from_bytes (to_bytes (new_header t n)) ≡ ok (new_header t n)
unfolding from_bytes to_bytes new_header
from_bytes-new_header t n h k =
    let e : from_be32 (n / 16777216 % 256) (n / 65536 % 256) (n / 256 % 256) (n % 256) ≡ n =
      omega arith in
    rw (e, h, le→ltb max_payload_size n k)

eq-new_header : (h : BinaryHeader) → IsWellFormed h → h ≡ new_header h.payload_type h.length
unfolding new_header
eq-new_header h w = ground arith

pub from_bytes-to_bytes : (h : BinaryHeader) → IsWellFormed h → from_bytes (to_bytes h) ≡ ok h
from_bytes-to_bytes h w =
    rw (eq-new_header h w) (from_bytes-new_header h.payload_type h.length w.our_type w.in_bounds)

from_eleven :
    (a b c d e f g i j k l : ℕ) (h : BinaryHeader)
    → let bytes : Bytes = a ∷ b ∷ c ∷ d ∷ e ∷ f ∷ g ∷ i ∷ j ∷ k ∷ l ∷ [] in
      AreBytes bytes → from_bytes bytes ≡ ok h → IsWellFormed h × (to_bytes h ≡ bytes)
unfolding from_bytes to_bytes
from_eleven a b c d e f g i j k l h small q =
    ground (arith, text_beq_iff (a ∷ b ∷ c ∷ d ∷ []) rfo_magic)

-- Eleven bytes are accepted by `from_bytes`, with this header, exactly if the header is well-formed
-- and they are what `to_bytes` prints of it.
pub from_bytes_iff :
    (bytes : Bytes) (h : BinaryHeader)
    → length bytes ≡ 11
    → AreBytes bytes
    → (from_bytes bytes ≡ ok h) ↔ (IsWellFormed h × (to_bytes h ≡ bytes))
from_bytes_iff bytes h n small = (
  (λ e.
      let eta = eq-tabulate 11 0 bytes n in
      subst (λ (b : Bytes). IsWellFormed h × (to_bytes h ≡ b)) (sym eta)
        (from_eleven _ _ _ _ _ _ _ _ _ _ _ h (subst AreBytes eta small)
          (subst (λ (b : Bytes). from_bytes b ≡ ok h) eta e))),
  (λ w. rw (← w.1) (from_bytes-to_bytes h w.0)),
)
