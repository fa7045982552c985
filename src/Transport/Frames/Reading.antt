-- ===== src/Transport/Frames/Reading.antt =====
-- What `read_frame` of src/transport.rs takes from a stream that holds a frame.
use rfo_protocol.Base.{
  ℕ, ◌^◌, ◌≤◌, ◌<◌, ◌≡◌, refl, sym, ◌∙◌, true, [], ◌∷◌, ◌++◌, arith, Bytes, AreBytes, ok, err, ltb,
  le→ltb, lt→ltb, ◌==◌, ==_refl, if◌then◌else◌, length, length-append, take-append, drop-append,
  be32_bytes, none,
}
use rfo_protocol.Binary.Header.{
  known_type, max_payload_size, new_header, to_bytes, checksum_mismatch,
}
use rfo_protocol.Binary.Header.RoundTrip.{from_bytes-new_header}
use rfo_protocol.Binary.Checksum.{calculate_checksum}
use rfo_protocol.Binary.Checksum.Detect.{calculate_checksum-lt}
use rfo_protocol.Binary.Codec.{frame_bytes}
use rfo_protocol.Binary.Codec.Framing.{buffer, header-length, be32_round}
use rfo_protocol.Binary.Codec.RoundTrip.{frame_bytes-append}
use rfo_protocol.Transport.Frames.{
  Stream, ◌>>=◌, read_exact, read_frame, lift, write_frame, write_all,
}

pub read_exact-append :
    (n : ℕ) (a b : Bytes) (s : Stream)
    → n ≡ length a
    → read_exact n (record s { incoming = a ++ b }) ≡ (ok a, record s { incoming = b })
unfolding read_exact
read_exact-append n a b s h = rw (
  le→ltb (length (a ++ b)) n (omega (arith, length-append a b)),
  take-append n a b h,
  drop-append n a b h,
)

read_payload :
    (a b : Bytes) (s : Stream)
    → (if ltb 0 (length a) then read_exact (length a) else lift (ok []))
        (record s { incoming = a ++ b })
      ≡ (ok a, record s { incoming = b })
read_payload [] b s = refl
read_payload (x ∷ a) b s =
    rw (lt→ltb 0 (length (x ∷ a)) (omega arith)) (read_exact-append _ (x ∷ a) b s refl)

-- A buffer whose header fits is read to its end and judged by its checksum.
pub read_frame-buffer :
    (t c max_size : ℕ) (payload rest : Bytes) (s : Stream)
    → known_type t ≡ true
    → length payload ≤ max_payload_size
    → length payload ≤ max_size
    → c < 2 ^ 32
    → read_frame max_size (record s { incoming = buffer t payload c rest }) ≡ (
      (if c == calculate_checksum payload
          then ok (record { payload_type = t; payload = payload })
          else err (checksum_mismatch c (calculate_checksum payload))),
      record s { incoming = rest },
    )
unfolding read_frame ◌>>=◌
read_frame-buffer t c max_size payload rest s k fits allowed small =
    let body = be32_bytes c ++ rest in
    rw
      (
        read_exact-append 11 (to_bytes (new_header t (length payload))) (payload ++ body) s
            (sym (header-length t (length payload))),
        from_bytes-new_header t (length payload) k fits,
      )
      (unfold new_header in
        rw
          (
            le→ltb max_size (length payload) allowed,
            read_payload payload body s,
            read_exact-append 4 (be32_bytes c) rest s refl,
            be32_round c small,
          )
          (ground arith))

-- A frame of a known type, whose payload is made of bytes and is within `max_size` and the payload
-- limit, laid out by `frame_bytes`, is read back from the stream, whatever follows it, and what
-- follows it is left to be read.
pub read_frame-frame_bytes :
    (t max_size : ℕ) (payload rest : Bytes) (s : Stream)
    → known_type t ≡ true
    → length payload ≤ max_payload_size
    → length payload ≤ max_size
    → AreBytes payload
    → read_frame max_size (record s { incoming = frame_bytes t payload ++ rest })
      ≡ (ok (record { payload_type = t; payload = payload }), record s { incoming = rest })
read_frame-frame_bytes t max_size payload rest s k fits allowed small =
    let c = calculate_checksum payload in
    rw (frame_bytes-append t payload rest (omega arith)) (
      read_frame-buffer t c max_size payload rest s k fits allowed
        (calculate_checksum-lt payload small)
      ∙ rw (==_refl c))

-- `write_frame` appends the layout of `frame_bytes` to the stream.
pub write_frame-frame_bytes :
    (t : ℕ) (payload : Bytes) (s : Stream)
    → s.write_error ≡ none
    → write_frame t payload s ≡ (ok tt, record s { outgoing = s.outgoing ++ frame_bytes t payload })
unfolding write_frame write_all frame_bytes new_header
write_frame-frame_bytes t payload s h = rw h
