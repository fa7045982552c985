-- ===== src/Transport/Client/Session.antt =====
-- `NativeClient::resolve_opt` against `handle_connection` in src/transport.rs.
use rfo_protocol.Base.{
  ℕ, ◌≤◌, ◌≡◌, refl, sym, ap, ◌∙◌, none, some, [], ◌++◌, append-nil, Bytes, AreBytes, Text, ok,
  length, true,
}
use rfo_protocol.Base.Keys.{text_eq, lookup, insert}
use rfo_protocol.Binary.Header.{known_type, max_payload_size, type_resolve_opt, type_core_file}
use rfo_protocol.Binary.Codec.{frame_bytes}
use rfo_protocol.Binary.Codec.RoundTrip.{Written}
use rfo_protocol.Resolver.{OptResolver, ResolvedOpt, normalize, touch, resolve}
use rfo_protocol.Transport.Frames.{Stream, ◌>>=◌, read_frame}
use rfo_protocol.Transport.Frames.Reading.{read_frame-frame_bytes, write_frame-frame_bytes}
use rfo_protocol.Transport.Server.{
  Env, continues, handle_resolve_opt, respond, send, answer_frame, serve_frame,
}
use rfo_protocol.Transport.Client.{domain_request, resolve_opt}

-- What the JSON library does with a request: the payload `q` that the client gets for the domain is
-- made of bytes, fits a frame, and gives the server the domain.
pub record Requested {C V : Type 0} (env : Env C V) (domain : Text) (q : Bytes) : Type 0 where
  pub wrote : env.value.to_vec (domain_request env domain) ≡ ok q
  pub reads : env.request.from_slice q ≡ ok domain
  pub bytes : AreBytes q
  pub fits : length q ≤ max_payload_size

read_whole :
    (t : ℕ) (payload : Bytes) (s : Stream)
    → known_type t ≡ true
    → length payload ≤ max_payload_size
    → AreBytes payload
    → read_frame max_payload_size (record s { incoming = frame_bytes t payload })
      ≡ (ok (record { payload_type = t; payload = payload }), record s { incoming = [] })
read_whole t payload s k fits small =
    ap (λ (b : Bytes). read_frame max_payload_size (record s { incoming = b }))
      (sym (append-nil (frame_bytes t payload)))
    ∙ read_frame-frame_bytes t max_payload_size payload [] s k fits fits small

module _ {C V : Type 0} (env : Env C V) (domain : Text) (q p : Bytes) (entry : ResolvedOpt C)
    (r : OptResolver C) (now : ℕ) where
  abbrev touched : OptResolver C
  touched = record r { registry = insert (normalize domain) (touch entry now) r.registry }

  resolve-registered :
      r.poisoned ≡ none
      → lookup (normalize domain) r.registry ≡ some entry
      → resolve r domain now ≡ ok (entry.core_file, touched)
  unfolding resolve touch
  resolve-registered sound found = rw (sound, found)

  respond-registered :
      r.poisoned ≡ none
      → lookup (normalize domain) r.registry ≡ some entry
      → Requested env domain q
      → Written env.core_file entry.core_file p
      → respond env (record { payload_type = type_resolve_opt; payload = q }) now r
        ≡ (ok (type_core_file, p), touched)
  unfolding respond handle_resolve_opt
  respond-registered sound found asked answer =
      rw (asked.reads, resolve-registered sound found, answer.wrote)

  serve_frame-registered :
      (server : Stream)
      → r.poisoned ≡ none
      → lookup (normalize domain) r.registry ≡ some entry
      → Requested env domain q
      → Written env.core_file entry.core_file p
      → server.write_error ≡ none
      → serve_frame env max_payload_size now
          (record server { incoming = frame_bytes type_resolve_opt q; outgoing = [] })
          r
        ≡ (
          continues,
          record server { incoming = []; outgoing = frame_bytes type_core_file p },
          touched,
        )
  unfolding serve_frame answer_frame send known_type
  serve_frame-registered server sound found asked answer sw = rw (
    read_whole type_resolve_opt q (record server { outgoing = [] }) refl asked.fits asked.bytes,
    respond-registered sound found asked answer,
    write_frame-frame_bytes type_core_file p (record server { incoming = []; outgoing = [] }) sw,
  )

  -- A registered domain is resolved end to end, if the lock is not poisoned, writes do not fail, and
  -- the JSON of the request and of the core file fits a frame and is read back: the server answers
  -- the client's request with one frame, keeps the connection open and counts the resolution, and the
  -- client that reads what the server wrote gets the registered core file.
  pub resolve_opt-served :
      (server client : Stream)
      → r.poisoned ≡ none
      → lookup (normalize domain) r.registry ≡ some entry
      → Requested env domain q
      → Written env.core_file entry.core_file p
      → server.write_error ≡ none
      → client.write_error ≡ none
      → let request = frame_bytes type_resolve_opt q in
        let heard = record server { incoming = request; outgoing = [] } in
        let (turn, served, registry) = serve_frame env max_payload_size now heard r in
        (turn ≡ continues)
        × (registry ≡ touched)
        × (resolve_opt env domain (record client { incoming = served.outgoing }) ≡ (
          ok entry.core_file,
          record client { incoming = []; outgoing = client.outgoing ++ request },
        ))
  unfolding resolve_opt known_type ◌>>=◌
  resolve_opt-served server client sound found asked answer sw cw =
      let heard = record server { incoming = frame_bytes type_resolve_opt q; outgoing = [] } in
      let served = serve_frame-registered server sound found asked answer sw in
      let read =
        read_whole type_core_file p
          (record client { outgoing = client.outgoing ++ frame_bytes type_resolve_opt q }) refl
          answer.fits answer.bytes in
      rw served (
        refl,
        refl,
        rw (
          asked.wrote,
          write_frame-frame_bytes type_resolve_opt q
              (record client { incoming = frame_bytes type_core_file p }) cw,
          read,
          answer.reads,
        ),
      )
