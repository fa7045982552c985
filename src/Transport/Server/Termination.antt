-- ===== src/Transport/Server/Termination.antt =====
-- The loop of `handle_connection` in src/transport.rs ends.
use rfo_protocol.Base.{
  ℕ, zero, suc, ◌+◌, ◌≤◌, ◌<◌, ◌≡◌, refl, ap, ◌∙◌, some, arith, Bytes, Outcome, ok, err, panicked,
  length, Option-cases, inl, inr,
}
use rfo_protocol.Binary.Header.{BinaryError}
use rfo_protocol.Resolver.{OptResolver}
use rfo_protocol.Transport.Frames.{Stream, RawFrame, read_frame, write_frame, write_all}
use rfo_protocol.Transport.Frames.Progress.{read_frame-Takes}
use rfo_protocol.Transport.Server.{
  Env, Turn, continues, stops, Response, after_write, send, answer_frame, serve_frame,
  handle_connection, respond,
}

write_frame-incoming :
    (t : ℕ) (payload : Bytes) (s : Stream) → (write_frame t payload s).1.incoming ≡ s.incoming
unfolding write_frame write_all
write_frame-incoming t payload s = elim (Option-cases s.write_error) [
  | inl e ↦ rw e
  | inr (a, e) ↦ rw e
]

after_write-stream :
    (w : Outcome BinaryError (Unit {0}) × Stream) (turn : Turn) → (after_write w turn).1 ≡ w.1
after_write-stream (ok u, s) turn = refl
after_write-stream (err e, s) turn = refl
after_write-stream (panicked, s) turn = refl

send-incoming : (resp : Response) (s : Stream) → (send resp s).1.incoming ≡ s.incoming
unfolding send
send-incoming (ok (t, payload)) s =
    ap (λ (x : Stream). x.incoming) (after_write-stream _ _) ∙ write_frame-incoming t payload s
send-incoming (err e) s =
    ap (λ (x : Stream). x.incoming) (after_write-stream _ _) ∙ write_frame-incoming _ _ s
send-incoming panicked s = refl

module _ {C V : Type 0} (env : Env C V) where
  answer_frame-takes :
      (read : Outcome BinaryError RawFrame) (now n : ℕ) (s : Stream) (r : OptResolver C)
      → ((frame : RawFrame) → read ≡ ok frame → length s.incoming + 15 ≤ n)
      → (answer_frame env read now s r).0 ≡ continues
      → length (answer_frame env read now s r).1.incoming + 15 ≤ n
  unfolding answer_frame
  answer_frame-takes (ok frame) now n s r taken e =
      rw (send-incoming (respond env frame now r).0 s) (taken frame refl)
  answer_frame-takes (err x) now n s r taken e = ground arith
  answer_frame-takes panicked now n s r taken e = ground arith

  serve_frame-takes :
      (max_size now : ℕ) (s : Stream) (r : OptResolver C)
      → (serve_frame env max_size now s r).0 ≡ continues
      → length (serve_frame env max_size now s r).1.incoming + 15 ≤ length s.incoming
  unfolding serve_frame
  serve_frame-takes max_size now s r e =
      answer_frame-takes (read_frame max_size s).0 now (length s.incoming) (read_frame max_size s).1
        r ((read_frame-Takes max_size).takes s) e

  next_turn :
      (turn : Turn) (fuel max_size : ℕ) (clock : ℕ → ℕ) (s : Stream) (r : OptResolver C)
      → (turn ≡ continues
          → (out : Outcome BinaryError (Unit {0}) × Stream × OptResolver C) × (handle_connection env
                fuel max_size clock s r
              ≡ some out))
      → (out : Outcome BinaryError (Unit {0}) × Stream × OptResolver C) × (elim turn [
        | continues ↦ handle_connection env fuel max_size clock s r
        | stops result ↦ some (result, s, r)
      ]
          ≡ some out)
  next_turn continues fuel max_size clock s r k = k refl
  next_turn (stops result) fuel max_size clock s r k = ((result, s, r), refl)

  -- The server's loop returns on every input: fuel above the number of bytes that the peer sends is
  -- enough, whatever they are.
  pub handle_connection-returns :
      (fuel max_size : ℕ) (clock : ℕ → ℕ) (s : Stream) (r : OptResolver C)
      → length s.incoming < fuel
      → (out : Outcome BinaryError (Unit {0}) × Stream × OptResolver C) × (handle_connection env
            fuel max_size clock s r
          ≡ some out)
  unfolding handle_connection
  handle_connection-returns zero max_size clock s r h = ground arith
  handle_connection-returns (suc fuel) max_size clock s r h =
      let after = serve_frame env max_size (clock 0) s r in
      next_turn after.0 fuel max_size (λ n. clock (suc n)) after.1 after.2
        λ e.
          let taken = serve_frame-takes max_size (clock 0) s r e in
          handle_connection-returns fuel max_size (λ n. clock (suc n)) after.1 after.2 (omega arith)
