-- ===== src/Binary/Codec/RoundTrip.antt =====
-- Round trips through the binary format, and what the deserializers refuse.
use rfo_protocol.Base.{
  ℕ, ◌^◌, ◌≤◌, ◌<◌, ◌≡◌, refl, ap, ◌∙◌, Bool, true, List, [], ◌++◌, append-nil, append_assoc, arith,
  Bytes, AreBytes, ok, err, ==_refl, if◌then◌else◌, length, as_u32, ◌>>=◌,
}
use rfo_protocol.Payloads.{RfoHeader, MiniDocPayload, FullDocPayload, Json}
use rfo_protocol.Binary.Header.{
  known_type, max_payload_size, type_mdoc, type_doc, type_batch, checksum_mismatch,
}
use rfo_protocol.Binary.Checksum.{calculate_checksum}
use rfo_protocol.Binary.Checksum.Detect.{calculate_checksum-lt}
use rfo_protocol.Binary.Codec.Framing.{buffer, checked_payload-buffer}
use rfo_protocol.Binary.Codec.{
  frame_bytes, checked_payload, serialize, deserialize, serialize_mdoc, serialize_doc,
  serialize_batch, deserialize_mdoc, deserialize_doc, deserialize_batch,
}

as_u32_small : (n : ℕ) → n < 2 ^ 32 → as_u32 n ≡ n
as_u32_small n h = omega arith

-- A frame is a buffer with the right checksum and nothing behind it.
pub frame_bytes-eq-buffer :
    (t : ℕ) (payload : Bytes)
    → length payload < 2 ^ 32
    → frame_bytes t payload ≡ buffer t payload (calculate_checksum payload) []
unfolding frame_bytes
frame_bytes-eq-buffer t payload h = rw (as_u32_small (length payload) h) (rw append-nil)

pub frame_bytes-append :
    (t : ℕ) (payload rest : Bytes)
    → length payload < 2 ^ 32
    → frame_bytes t payload ++ rest ≡ buffer t payload (calculate_checksum payload) rest
frame_bytes-append t payload rest h =
    rw (frame_bytes-eq-buffer t payload h, append_assoc, append_assoc)

pub checked_payload-frame :
    (t : ℕ) (payload : Bytes)
    → known_type t ≡ true
    → length payload ≤ max_payload_size
    → AreBytes payload
    → checked_payload t (frame_bytes t payload) ≡ ok payload
checked_payload-frame t payload k fits small =
    let c = calculate_checksum payload in
    rw (frame_bytes-eq-buffer t payload (omega arith)) (
      checked_payload-buffer t c payload [] k fits (calculate_checksum-lt payload small)
      ∙ ap (λ (b : Bool). if b then ok payload else err (checksum_mismatch c c)) (==_refl c))

-- The hypothesis of the round trips: the JSON library reads back what it wrote of this value,
-- which is made of bytes and fits the payload limit.
pub record Written {A : Type 0} (json : Json A) (value : A) (payload : Bytes) : Type 0 where
  pub wrote : json.to_vec value ≡ ok payload
  pub reads : json.from_slice payload ≡ ok value
  pub bytes : AreBytes payload
  pub fits : length payload ≤ max_payload_size

module _ {A : Type 0} (json : Json A) (value : A) (payload : Bytes) where
  pub deserialize-serialize :
      (t : ℕ)
      → known_type t ≡ true
      → Written json value payload
      → (serialize json t value >>= deserialize json t) ≡ ok value
  unfolding serialize deserialize
  deserialize-serialize t k w =
      rw (w.wrote, checked_payload-frame t payload k w.fits w.bytes, w.reads)

-- Each payload that a serializer wrote is read back by its deserializer, with its header, where its
-- JSON is made of bytes, is within the payload limit and is read back by the JSON library.
pub payload_round_trips :
    (jm : Json (RfoHeader × MiniDocPayload)) (jd : Json (RfoHeader × FullDocPayload))
    (jb : Json (List (RfoHeader × MiniDocPayload × FullDocPayload))) (header : RfoHeader)
    (mdoc : MiniDocPayload) (doc : FullDocPayload)
    (items : List (RfoHeader × MiniDocPayload × FullDocPayload)) (pm pd pb : Bytes)
    → Written jm (header, mdoc) pm
    → Written jd (header, doc) pd
    → Written jb items pb
    → ((serialize_mdoc jm mdoc header >>= deserialize_mdoc jm) ≡ ok (header, mdoc))
      × ((serialize_doc jd doc header >>= deserialize_doc jd) ≡ ok (header, doc))
      × ((serialize_batch jb items >>= deserialize_batch jb) ≡ ok items)
unfolding serialize_mdoc serialize_doc serialize_batch deserialize_mdoc deserialize_doc
    deserialize_batch known_type
payload_round_trips jm jd jb header mdoc doc items pm pd pb wm wd wb = (
  deserialize-serialize jm (header, mdoc) pm type_mdoc refl wm,
  deserialize-serialize jd (header, doc) pd type_doc refl wd,
  deserialize-serialize jb items pb type_batch refl wb,
)
