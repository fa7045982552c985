-- ===== src/Transport/Server.antt =====
-- The server of src/transport.rs: `handle_handshake`, `handle_resolve_opt` and `handle_connection`.
pub mod Termination
pub mod Refusals
use rfo_protocol.Base.{
  ℕ, zero, suc, Option, none, some, List, [], ◌∷◌, ◌++◌, Bytes, Text, codes, Outcome, ok, err,
  panicked, map_err, ◌==◌, if◌then◌else◌, ◌>>=◌,
}
use rfo_protocol.Base.Keys.{Assoc}
use rfo_protocol.Base.Strings.{as_bytes}
use rfo_protocol.Payloads.{Json}
use rfo_protocol.Binary.Header.{
  BinaryError, invalid_magic, unsupported_version, payload_too_large, checksum_mismatch,
  invalid_type, io_error, serialization_error, deserialization_error, type_handshake,
  type_resolve_opt, type_core_file, type_error, display,
}
use rfo_protocol.Resolver
use rfo_protocol.Resolver.{ResolverError, OptResolver, resolve}
use rfo_protocol.Transport.Frames.{Stream, RawFrame, read_frame, write_frame}

-- What the handlers take from other crates: `serde_json` on a request's `domain`, on a core file and
-- on a JSON value, the object of a list of text fields (`json!`), `to_rfc3339` of chrono, and
-- `String::from_utf8_lossy`.
pub record Env (C V : Type 0) : Type 0 where
  pub request : Json Text
  pub core_file : Json C
  pub value : Json V
  pub object : Assoc Text Text → V
  pub to_rfc3339 : ℕ → Text
  pub from_utf8_lossy : Bytes → Text

-- How one turn of the loop ends: with the next one, or with the result of the function.
pub data Turn : Type 0 where
  continues : Turn
  stops : Outcome BinaryError (Unit {0}) → Turn

-- A response's type and payload.
abbrev pub Response : Type 0
Response = Outcome BinaryError (ℕ × Bytes)

-- `write_frame(…).await?` and then the next turn or `break`.
abbrev pub after_write : Outcome BinaryError (Unit {0}) × Stream → Turn → Turn × Stream
after_write (ok u, s) turn = (turn, s)
after_write (err e, s) turn = (stops (err e), s)
after_write (panicked, s) turn = (stops panicked, s)

-- `matches!(e, BinaryError::InvalidType(_))`
abbrev pub after_error : BinaryError → Turn
after_error (invalid_type t) = stops (ok tt)
after_error invalid_magic = continues
after_error (unsupported_version v) = continues
after_error (payload_too_large n) = continues
after_error (checksum_mismatch a b) = continues
after_error (serialization_error e) = continues
after_error (deserialization_error e) = continues
after_error (io_error e) = continues

-- `match response`
unfoldable pub send : Response → Stream → Turn × Stream
send (ok (resp_type, payload)) s = after_write (write_frame resp_type payload s) continues
send (err e) s = after_write (write_frame type_error (as_bytes (display e)) s) (after_error e)
send panicked s = (stops panicked, s)

module _ {C V : Type 0} (env : Env C V) where
  unfoldable pub handle_handshake : Bytes → ℕ → Response
  handle_handshake payload now = do
    domain ← map_err deserialization_error (env.request.from_slice payload)
    let resp = env.object (
        (codes "status", codes "ok")
        ∷ (codes "domain", domain)
        ∷ (codes "protocol", codes "rfo-binary-v1")
        ∷ (codes "timestamp", env.to_rfc3339 now)
        ∷ [])
    resp_bytes ← map_err serialization_error (env.value.to_vec resp)
    ok (type_handshake, resp_bytes)

  -- The response of `handle_resolve_opt` from what `resolve` returned, and the resolver after it.
  answer_resolved :
      Outcome ResolverError (C × OptResolver C) → OptResolver C → Response × OptResolver C
  answer_resolved (ok (core_file, resolved)) r = (
    (do
      json ← map_err serialization_error (env.core_file.to_vec core_file)
      ok (type_core_file, json)),
    resolved,
  )
  answer_resolved (err e) r = (err (io_error (Resolver.display e)), r)
  answer_resolved panicked r = (panicked, r)

  answer_request : Outcome Text Text → ℕ → OptResolver C → Response × OptResolver C
  unfolding answer_resolved
  answer_request (ok domain) now r = answer_resolved (resolve r domain now) r
  answer_request (err e) now r = (err (deserialization_error e), r)
  answer_request panicked now r = (panicked, r)

  unfoldable pub handle_resolve_opt : Bytes → ℕ → OptResolver C → Response × OptResolver C
  unfolding answer_request
  handle_resolve_opt payload now r = answer_request (env.request.from_slice payload) now r

  -- `match frame.payload_type`
  unfoldable pub respond : RawFrame → ℕ → OptResolver C → Response × OptResolver C
  respond frame now r =
      if frame.payload_type == type_handshake
      then (handle_handshake frame.payload now, r)
      else if frame.payload_type == type_resolve_opt
      then handle_resolve_opt frame.payload now r
      else (err (invalid_type frame.payload_type), r)

  -- The rest of a turn after `read_frame(…).await?`.
  unfoldable pub answer_frame :
      Outcome BinaryError RawFrame → ℕ → Stream → OptResolver C → Turn × Stream × OptResolver C
  answer_frame (ok frame) now s r =
      let answer = respond frame now r in let sent = send answer.0 s in (sent.0, sent.1, answer.1)
  answer_frame (err e) now s r = (stops (err e), s, r)
  answer_frame panicked now s r = (stops panicked, s, r)

  -- One turn of the loop of `handle_connection`.
  unfoldable pub serve_frame : ℕ → ℕ → Stream → OptResolver C → Turn × Stream × OptResolver C
  unfolding answer_frame
  serve_frame max_frame_size now s r =
      let read = read_frame max_frame_size s in answer_frame read.0 now read.1 r

  -- `handle_connection`, on fuel; the clock gives the time at each turn.
  unfoldable pub handle_connection :
      ℕ
      → ℕ
      → (ℕ → ℕ)
      → Stream
      → OptResolver C
      → Option (Outcome BinaryError (Unit {0}) × Stream × OptResolver C)
  handle_connection zero max_frame_size clock s r = none
  handle_connection (suc fuel) max_frame_size clock s r =
      let (turn, s', r') = serve_frame max_frame_size (clock 0) s r in
      elim turn [
        | continues ↦ handle_connection fuel max_frame_size (λ n. clock (suc n)) s' r'
        | stops result ↦ some (result, s', r')
      ]
