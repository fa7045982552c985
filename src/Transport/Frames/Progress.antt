-- ===== src/Transport/Frames/Progress.antt =====
-- `read_frame` of src/transport.rs takes at least its header and checksum from the stream.
use rfo_protocol.Base.{
  ℕ, ◌+◌, ◌≤◌, ◌≡◌, refl, Bool, true, false, [], arith, Outcome, ok, err, panicked, ltb, ltb→le,
  if◌then◌else◌, length, length-drop, Bool-cases, inl, inr,
}
use rfo_protocol.Binary.Header.{BinaryError}
use rfo_protocol.Transport.Frames.{Stream, Io, continue, lift, ◌>>=◌, read_exact, read_frame}

-- A step that, when it succeeds, has taken `n` bytes or more.
pub record Takes {A : Type 0} (n : ℕ) (m : Io A) : Type 0 where
  pub takes :
      (s : Stream) (a : A) → (m s).0 ≡ ok a → length (m s).1.incoming + n ≤ length s.incoming

continue-Takes :
    {A B : Type 0} (n k : ℕ) (r : Outcome BinaryError A) (f : A → Io B) (s t : Stream)
    → ((a : A) → r ≡ ok a → length t.incoming + n ≤ length s.incoming)
    → ((a : A) → Takes k (f a))
    → (b : B) → (continue r f t).0 ≡ ok b
    → length (continue r f t).1.incoming + (n + k) ≤ length s.incoming
continue-Takes n k (ok a) f s t g h b e =
    let first = g a refl in let second = (h a).takes t b e in omega arith
continue-Takes n k (err x) f s t g h b e = ground arith
continue-Takes n k panicked f s t g h b e = ground arith

bind-Takes :
    {A B : Type 0} {n k : ℕ} {m : Io A} {f : A → Io B}
    → Takes n m
    → ((a : A) → Takes k (f a))
    → Takes (n + k) (m >>= f)
unfolding ◌>>=◌
bind-Takes {n} {k} {m} {f} g h = record {
  takes = λ s b e. continue-Takes n k (m s).0 f s (m s).1 (g.takes s) h b e;
}

lift-Takes : {A : Type 0} (r : Outcome BinaryError A) → Takes 0 (lift r)
lift-Takes r = record { takes = λ s a e. omega arith }

read_exact-Takes : (n : ℕ) → Takes n (read_exact n)
unfolding read_exact
read_exact-Takes n = record {
  takes = λ s a e.
      let dropped = length-drop n s.incoming in
      elim (Bool-cases (ltb (length s.incoming) n)) [
        | inl short ↦ ground (arith, short, e)
        | inr long ↦ let enough = ltb→le (length s.incoming) n long in rw long (omega arith)
      ];
}

if-Takes : (b : Bool) (n : ℕ) → Takes 0 (if b then read_exact n else lift (ok []))
if-Takes true n = record {
  takes = λ s a e. let k = (read_exact-Takes n).takes s a e in omega arith;
}
if-Takes false n = record { takes = λ s a e. omega arith }

-- Fifteen bytes, the header and the checksum, are gone from the stream after every frame.
pub read_frame-Takes : (max_size : ℕ) → Takes 15 (read_frame max_size)
unfolding read_frame
read_frame-Takes max_size = bind-Takes (read_exact-Takes 11) λ header_buf.
    bind-Takes (lift-Takes _) λ header. bind-Takes (lift-Takes _) λ _.
      bind-Takes (lift-Takes _) λ _. bind-Takes (lift-Takes _) λ _.
        bind-Takes (if-Takes _ _) λ payload.
          bind-Takes (read_exact-Takes 4) λ crc_buf. bind-Takes (lift-Takes _) λ _. lift-Takes _
