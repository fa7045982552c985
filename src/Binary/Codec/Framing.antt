-- ===== src/Binary/Codec/Framing.antt =====
-- How the deserializers of src/binary.rs read a buffer of the form header, payload, four bytes.
use rfo_protocol.Base.{
  ℕ, ◌+◌, ◌-◌, ◌^◌, ◌≤◌, ◌<◌, ◌≡◌, refl, sym, ap, ◌∙◌, true, ◌∷◌, ◌++◌, arith, Bytes, some,
  append_assoc, ◌/◌, ◌%◌, ok, err, le→ltb, ==_refl, ◌==◌, if◌then◌else◌, length, take, drop,
  get_elem?, length-append, take-append, drop-append, get_elem?-drop, be32_bytes, from_be32,
}
use rfo_protocol.Binary.Header.{
  known_type, max_payload_size, new_header, to_bytes, checksum_mismatch,
}
use rfo_protocol.Binary.Header.RoundTrip.{from_bytes-new_header}
use rfo_protocol.Binary.Checksum.{calculate_checksum}
use rfo_protocol.Binary.Codec.{slice, read_be32, checked_payload}

pub header-length : (t n : ℕ) → length (to_bytes (new_header t n)) ≡ 11
unfolding to_bytes new_header
header-length t n = refl

pub slice-append :
    (a b c : Bytes) (start end : ℕ)
    → start ≡ length a
    → end ≡ length a + length b
    → slice (a ++ (b ++ c)) start end ≡ ok b
unfolding slice
slice-append a b c start end p q =
    let n = length-append a (b ++ c) in
    let m = length-append b c in
    rw (
      le→ltb end start (omega arith),
      le→ltb (length (a ++ (b ++ c))) end (omega arith),
      drop-append start a (b ++ c) p,
      take-append (end - start) b c (omega arith),
    )

read_be32-drop :
    (bytes rest : Bytes) (k a b c d : ℕ)
    → drop k bytes ≡ a ∷ b ∷ c ∷ d ∷ rest
    → read_be32 bytes k ≡ ok (from_be32 a b c d)
unfolding read_be32
read_be32-drop bytes rest k a b c d h =
    let at = λ (i : ℕ). sym (get_elem?-drop k i bytes) ∙ ap (λ (ys : Bytes). get_elem? ys i) h in
    let first : get_elem? bytes k ≡ some a = ap (get_elem? bytes) (omega arith) ∙ at 0 in
    rw (first, at 1, at 2, at 3)

pub be32_round :
    (n : ℕ)
    → n < 2 ^ 32
    → from_be32 (n / 16777216 % 256) (n / 65536 % 256) (n / 256 % 256) (n % 256) ≡ n
be32_round n h = omega arith

pub read_be32-append :
    (a rest : Bytes) (k n : ℕ)
    → k ≡ length a
    → n < 2 ^ 32
    → read_be32 (a ++ (be32_bytes n ++ rest)) k ≡ ok n
read_be32-append a rest k n h small =
    read_be32-drop _ rest k _ _ _ _ (drop-append k a (be32_bytes n ++ rest) h)
    ∙ ap ok (be32_round n small)

-- A buffer with a header for the payload, the payload, and the number `c` in place of the checksum.
abbrev pub buffer : ℕ → Bytes → ℕ → Bytes → Bytes
buffer t payload c rest =
    to_bytes (new_header t (length payload)) ++ (payload ++ (be32_bytes c ++ rest))

module _ (t c : ℕ) (payload rest : Bytes) where
  pub length-buffer : length (buffer t payload c rest) ≡ 15 + length payload + length rest
  length-buffer = omega (
    arith,
    length-append (to_bytes (new_header t (length payload))) (payload ++ (be32_bytes c ++ rest)),
    length-append payload (be32_bytes c ++ rest),
    header-length t (length payload),
  )

  pub take-buffer : take 11 (buffer t payload c rest) ≡ to_bytes (new_header t (length payload))
  take-buffer = take-append 11 _ _ (sym (header-length t (length payload)))

  pub slice-buffer : slice (buffer t payload c rest) 11 (11 + length payload) ≡ ok payload
  slice-buffer =
      slice-append (to_bytes (new_header t (length payload))) payload (be32_bytes c ++ rest) 11 _
        (omega (arith, header-length t (length payload)))
        (omega (arith, header-length t (length payload)))

  pub read_be32-buffer :
      c < 2 ^ 32 → read_be32 (buffer t payload c rest) (11 + length payload) ≡ ok c
  read_be32-buffer small =
      let head = to_bytes (new_header t (length payload)) in
      rw (← append_assoc head) (
        read_be32-append (head ++ payload) rest _ c
          (omega (arith, length-append head payload, header-length t (length payload))) small)

  pub checked_payload-buffer :
      known_type t ≡ true
      → length payload ≤ max_payload_size
      → c < 2 ^ 32
      → checked_payload t (buffer t payload c rest) ≡ (
          if c == calculate_checksum payload
          then ok payload
          else err (checksum_mismatch c (calculate_checksum payload)))
  unfolding checked_payload
  checked_payload-buffer k fits small =
      rw
        (
          le→ltb (length (buffer t payload c rest)) 15 (omega (arith, length-buffer)),
          take-buffer,
          from_bytes-new_header t (length payload) k fits,
        )
        (unfold new_header in rw (==_refl t, slice-buffer, read_be32-buffer small) (ground arith))
