-- ===== src/Binary/Stream/Chunks.antt =====
-- Chunked reading of src/binary.rs: the chunks of a whole frame make up its payload.
use rfo_protocol.Base.{
  ℕ, zero, suc, ◌+◌, ◌-◌, ◌≤◌, ◌≡◌, refl, sym, ap, ap₂, ◌∙◌, true, false, List, [], ◌∷◌, ◌++◌,
  arith, Bytes, ok, ◌>>=◌, leb, le→ltb, length, take, drop, min, length-append, append_assoc,
  be32_bytes, length-drop, length-take, take-add, take-append-drop, drop-drop, take-min, drop-min,
}
use rfo_protocol.Binary.Header.{known_type, max_payload_size, new_header, to_bytes}
use rfo_protocol.Binary.Header.RoundTrip.{from_bytes-new_header}
use rfo_protocol.Binary.Codec.{slice}
use rfo_protocol.Binary.Codec.Framing.{
  buffer, header-length, length-buffer, take-buffer, slice-append,
}
use rfo_protocol.Binary.Stream.{
  BinaryStreamReader, new_reader, read_chunk, read_chunks, is_complete,
}

unfoldable pub sum : List ℕ → ℕ
sum [] = 0
sum (n ∷ ns) = n + sum ns

regroup : (h a b c x p : Bytes) → a ++ (b ++ c) ≡ p → h ++ (p ++ x) ≡ (h ++ a) ++ (b ++ (c ++ x))
regroup h a b c x p e = rw (← e) (simp append_assoc)

module _ (t c : ℕ) (payload rest : Bytes) where
  -- The reader of a buffer after `k` bytes of its payload.
  abbrev pub reader_at : ℕ → BinaryStreamReader
  reader_at k = record {
    header = new_header t (length payload);
    bytes = buffer t payload c rest;
    position = 11 + k;
    checksum_validated = false;
  }

  pub new_reader-buffer :
      known_type t ≡ true
      → length payload ≤ max_payload_size
      → new_reader (buffer t payload c rest) ≡ ok (reader_at 0)
  unfolding new_reader
  new_reader-buffer k fits = rw (
    le→ltb (length (buffer t payload c rest)) 15 (omega (arith, length-buffer t c payload rest)),
    take-buffer t c payload rest,
    from_bytes-new_header t (length payload) k fits,
  )

  slice-middle :
      (k n : ℕ)
      → k + n ≤ length payload
      → slice (buffer t payload c rest) (11 + k) (11 + k + n) ≡ ok (take n (drop k payload))
  slice-middle k n h =
      let head = to_bytes (new_header t (length payload)) in
      let past = drop k payload in
      let e : take k payload ++ (take n past ++ drop n past) ≡ payload =
        ap (λ r. take k payload ++ r) (take-append-drop n past) ∙ take-append-drop k payload in
      let la : length (head ++ take k payload) ≡ 11 + k = omega (
        arith,
        length-append head (take k payload),
        length-take k payload,
        header-length t (length payload),
      ) in
      let lb : length (take n past) ≡ n =
        omega (arith, length-take n past, length-drop k payload) in
      rw
        (regroup head (take k payload) (take n past) (drop n past) (be32_bytes c ++ rest) payload e)
        (slice-append (head ++ take k payload) (take n past) (drop n past ++ (be32_bytes c ++ rest))
          (11 + k) (11 + k + n) (sym la) (omega arith))

  read_chunk_exact :
      (k n d : ℕ)
      → k + d ≤ length payload
      → d ≡ min n (11 + length payload - (11 + k))
      → read_chunk (reader_at k) n ≡ ok (take d (drop k payload), reader_at (k + d))
  unfolding read_chunk new_header
  read_chunk_exact k n zero h e =
      let stay : k ≡ k + 0 = omega arith in rw (← e) (ap (λ m. ok ([], reader_at m)) stay)
  read_chunk_exact k n (suc d) h e =
      let on : 11 + k + suc d ≡ 11 + (k + suc d) = omega arith in
      rw (← e, slice-middle k (suc d) h, on) (ground arith)

  read_chunk-reader :
      (k n : ℕ)
      → k ≤ length payload
      → read_chunk (reader_at k) n
        ≡ ok (take n (drop k payload), reader_at (min (k + n) (length payload)))
  unfolding read_chunk new_header
  read_chunk-reader k n h =
      let d = min n (11 + length payload - (11 + k)) in
      let e : d ≡ min n (length (drop k payload)) = omega (arith, length-drop k payload) in
      read_chunk_exact k n d (omega arith) refl
      ∙ ap₂ (λ b m. ok (b, reader_at m))
          (ap (λ (m : ℕ). take m (drop k payload)) e ∙ take-min n (drop k payload)) (omega arith)

  -- Chunks of any sizes, from any place.
  read_chunks-reader :
      (k : ℕ) (ns : List ℕ)
      → k ≤ length payload
      → read_chunks ns (reader_at k)
        ≡ ok (take (sum ns) (drop k payload), reader_at (min (k + sum ns) (length payload)))
  unfolding read_chunks sum
  read_chunks-reader k [] h =
      let stay : k ≡ min (k + 0) (length payload) = omega arith in
      ap (λ m. ok ([], reader_at m)) stay
  read_chunks-reader k (n ∷ ns) h =
      let m = min (k + n) (length payload) in
      let past : take (sum ns) (drop m payload) ≡ take (sum ns) (drop n (drop k payload)) =
        ap (take (sum ns)) (drop-min (k + n) payload ∙ sym (drop-drop n k payload)) in
      let end : min (m + sum ns) (length payload) ≡ min (k + (n + sum ns)) (length payload) =
        omega arith in
      rw (read_chunk-reader k n h, read_chunks-reader m ns (omega arith), end, past)
        (rw (take-add n (sum ns) (drop k payload)))

-- Reading the chunks of a whole frame of a known type and within the payload limit, of any sizes
-- and however many, gives in order the part of the payload that the sizes add up to, and leaves the
-- reader behind the bytes that were read; the reader is complete once that is all the payload.
pub read_chunks-frame :
    (t c : ℕ) (payload rest : Bytes) (sizes : List ℕ)
    → known_type t ≡ true
    → length payload ≤ max_payload_size
    → let last = reader_at t c payload rest (min (sum sizes) (length payload)) in
      ((new_reader (buffer t payload c rest) >>= read_chunks sizes)
        ≡ ok (take (sum sizes) payload, last))
      × (is_complete last ≡ leb (length payload) (sum sizes))
unfolding is_complete new_header
read_chunks-frame t c payload rest sizes k fits = (
  (let s = sum sizes in
      let e : min (0 + s) (length payload) ≡ min s (length payload) = omega arith in
      rw (new_reader-buffer t c payload rest k fits) (
        read_chunks-reader t c payload rest 0 sizes (omega arith)
        ∙ ap (λ m. ok (take s payload, reader_at t c payload rest m)) e)),
  ground arith,
)
