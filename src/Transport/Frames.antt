-- ===== src/Transport/Frames.antt =====
-- `read_frame` and `write_frame` of src/transport.rs, over a stream.
pub mod Reading
pub mod Progress
use rfo_protocol.Base.{
  ℕ, zero, suc, Bool, not, Option, none, some, List, [], ◌∷◌, ◌++◌, Bytes, Text, Outcome, ok, err,
  panicked, ltb, ◌==◌, if◌then◌else◌, length, take, drop, get_or, be32_bytes, from_be32, as_u32,
}
use rfo_protocol.Base.Keys.{text_beq}
use rfo_protocol.Binary.Header.{
  BinaryError, BinaryHeader, io_error, invalid_magic, unsupported_version, payload_too_large,
  checksum_mismatch, rfo_magic, protocol_version, to_bytes, from_bytes,
}
use rfo_protocol.Binary.Checksum.{calculate_checksum}

-- A TCP stream: the bytes that the peer sends before it closes or the connection fails, those that
-- were written, the message of a read past the end, and, where writes fail, theirs.
pub record Stream : Type 0 where
  pub incoming : Bytes
  pub outgoing : Bytes
  pub read_error : Text
  pub write_error : Option Text

-- A step that may fail, and the stream after it.
abbrev pub Io : Type 0 → Type 0
Io A = Stream → Outcome BinaryError A × Stream

abbrev pub continue : {A B : Type 0} → Outcome BinaryError A → (A → Io B) → Io B
continue (ok a) f s = f a s
continue (err e) f s = (err e, s)
continue panicked f s = (panicked, s)

infixl 5 ◌>>=◌ ◌>>◌
unfoldable pub ◌>>=◌ : {A B : Type 0} → Io A → (A → Io B) → Io B
◌>>=◌ m f s = continue (m s).0 f (m s).1

abbrev pub lift : {A : Type 0} → Outcome BinaryError A → Io A
lift r s = (r, s)

abbrev pub ◌>>◌ : {B : Type 0} → Io (Unit {0}) → Io B → Io B
m >> k = m >>= λ _. k

-- `if condition { return Err(e); }`
abbrev pub fail_if : Bool → BinaryError → Io (Unit {0})
fail_if b e = lift (if b then err e else ok tt)

-- `read_exact`; at the end of the stream it takes what is there.
unfoldable pub read_exact : ℕ → Io Bytes
read_exact n s =
    if ltb (length s.incoming) n
    then (err (io_error s.read_error), record s { incoming = [] })
    else (ok (take n s.incoming), record s { incoming = drop n s.incoming })

-- `write_all` and `flush`
unfoldable pub write_all : Bytes → Io (Unit {0})
write_all bytes s = elim s.write_error [
  | none ↦ (ok tt, record s { outgoing = s.outgoing ++ bytes })
  | some e ↦ (err (io_error e), s)
]

pub record RawFrame : Type 0 where
  pub payload_type : ℕ
  pub payload : Bytes

unfoldable pub read_frame : ℕ → Io RawFrame
unfolding read_exact
read_frame max_size = do
  header_buf ← read_exact 11
  header ← lift (from_bytes header_buf)
  fail_if (not (text_beq header.magic rfo_magic)) invalid_magic
  fail_if (not (header.version == protocol_version)) (unsupported_version header.version)
  fail_if (ltb max_size header.length) (payload_too_large header.length)
  payload ← if ltb 0 header.length then read_exact header.length else lift (ok [])
  crc_buf ← read_exact 4
  let received_crc =
      from_be32 (get_or crc_buf 0 0) (get_or crc_buf 1 0) (get_or crc_buf 2 0) (get_or crc_buf 3 0)
  let computed_crc = calculate_checksum payload
  fail_if (not (received_crc == computed_crc)) (checksum_mismatch received_crc computed_crc)
  lift (ok (record { payload_type = header.payload_type; payload = payload }))

unfoldable pub write_frame : ℕ → Bytes → Io (Unit {0})
unfolding write_all
write_frame payload_type payload =
    let header : BinaryHeader = record {
      magic = rfo_magic;
      version = protocol_version;
      payload_type = payload_type;
      length = as_u32 (length payload);
    } in
    let crc = calculate_checksum payload in
    write_all (to_bytes header ++ (payload ++ be32_bytes crc))
