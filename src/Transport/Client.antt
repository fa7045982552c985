-- ===== src/Transport/Client.antt =====
-- The client of src/transport.rs: `NativeClient` over an open stream.
pub mod Session
use rfo_protocol.Base.{
  ℕ, [], ◌∷◌, Bytes, Text, codes, Outcome, ok, err, map_err, ◌==◌, if◌then◌else◌,
}
use rfo_protocol.Payloads.{Json}
use rfo_protocol.Binary.Header.{
  io_error, serialization_error, deserialization_error, type_handshake, type_resolve_opt,
  type_error, max_payload_size,
}
use rfo_protocol.Transport.Frames.{Io, ◌>>=◌, ◌>>◌, lift, RawFrame, read_frame, write_frame}
use rfo_protocol.Transport.Server.{Env}

module _ {C V : Type 0} (env : Env C V) where
  -- `json!({ "domain": domain })`
  abbrev pub domain_request : Text → V
  domain_request domain = env.object ((codes "domain", domain) ∷ [])

  unfoldable pub handshake : Text → Io V
  handshake domain = do
    req_bytes ← lift (map_err serialization_error (env.value.to_vec (domain_request domain)))
    write_frame type_handshake req_bytes
    frame ← read_frame max_payload_size
    lift (map_err deserialization_error (env.value.from_slice frame.payload))

  unfoldable pub resolve_opt : Text → Io C
  resolve_opt domain = do
    req_bytes ← lift (map_err serialization_error (env.value.to_vec (domain_request domain)))
    write_frame type_resolve_opt req_bytes
    frame ← read_frame max_payload_size
    if frame.payload_type == type_error
        then lift (err (io_error (env.from_utf8_lossy frame.payload)))
        else lift (map_err deserialization_error (env.core_file.from_slice frame.payload))
