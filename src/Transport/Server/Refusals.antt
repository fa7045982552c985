-- ===== src/Transport/Server/Refusals.antt =====
-- What the server of src/transport.rs answers to requests that it refuses.
use rfo_protocol.Base.{
  ℕ, ◌≤◌, ◌≡◌, ◌≢◌, refl, true, none, ◌++◌, Bytes, AreBytes, Text, ok, ne→==, length,
}
use rfo_protocol.Base.Keys.{text_eq, lookup}
use rfo_protocol.Base.Strings.{as_bytes}
use rfo_protocol.Binary.Header.{
  known_type, max_payload_size, type_handshake, type_resolve_opt, type_error, invalid_type,
  io_error, display,
}
use rfo_protocol.Binary.Codec.{frame_bytes}
use rfo_protocol.Resolver
use rfo_protocol.Resolver.{OptResolver, not_found, normalize, resolve}
use rfo_protocol.Transport.Frames.{Stream}
use rfo_protocol.Transport.Frames.Reading.{read_frame-frame_bytes, write_frame-frame_bytes}
use rfo_protocol.Transport.Server.{
  Env, continues, stops, handle_resolve_opt, respond, send, answer_frame, serve_frame,
}

module _ {C V : Type 0} (env : Env C V) (max_size now : ℕ) (payload rest : Bytes) (s : Stream)
    (r : OptResolver C) where
  -- A good frame of a known type that the server does not handle is answered with an error frame, if
  -- the write does not fail, and ends the connection without an error.
  pub serve_frame-unhandled :
      (t : ℕ)
      → known_type t ≡ true
      → t ≢ type_handshake
      → t ≢ type_resolve_opt
      → length payload ≤ max_payload_size
      → length payload ≤ max_size
      → AreBytes payload
      → s.write_error ≡ none
      → serve_frame env max_size now (record s { incoming = frame_bytes t payload ++ rest }) r ≡ (
        stops (ok tt),
        record s {
          incoming = rest;
          outgoing = s.outgoing ++ frame_bytes type_error (as_bytes (display (invalid_type t)));
        },
        r,
      )
  unfolding serve_frame answer_frame respond send
  serve_frame-unhandled t k not_handshake not_resolve fits allowed small w = rw (
    read_frame-frame_bytes t max_size payload rest s k fits allowed small,
    ne→== t type_handshake not_handshake,
    ne→== t type_resolve_opt not_resolve,
    write_frame-frame_bytes type_error (as_bytes (display (invalid_type t)))
        (record s { incoming = rest }) w,
  )

  -- A request for a name that is not registered, while the lock is sound, is answered with an error
  -- frame, if the write does not fail; the connection goes on and the registry is as it was.
  pub serve_frame-not_found :
      (name : Text)
      → r.poisoned ≡ none
      → env.request.from_slice payload ≡ ok name
      → lookup (normalize name) r.registry ≡ none
      → length payload ≤ max_payload_size
      → length payload ≤ max_size
      → AreBytes payload
      → s.write_error ≡ none
      → serve_frame env max_size now
          (record s { incoming = frame_bytes type_resolve_opt payload ++ rest })
          r
        ≡ (
          continues,
          record s {
            incoming = rest;
            outgoing =
                s.outgoing
                ++ frame_bytes type_error
                    (as_bytes (display (io_error (Resolver.display (not_found (normalize name))))));
          },
          r,
        )
  unfolding serve_frame answer_frame respond send handle_resolve_opt resolve known_type
  serve_frame-not_found name sound asked missing fits allowed small w = rw (
    read_frame-frame_bytes type_resolve_opt max_size payload rest s refl fits allowed small,
    asked,
    sound,
    missing,
    write_frame-frame_bytes type_error
        (as_bytes (display (io_error (Resolver.display (not_found (normalize name))))))
        (record s { incoming = rest }) w,
  )
