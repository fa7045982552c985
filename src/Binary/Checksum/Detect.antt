-- ===== src/Binary/Checksum/Detect.antt =====
-- What the checksum of src/binary.rs detects: every change of one byte. A round of the loop loses
-- nothing, since the top digit of the polynomial records the digit that is shifted out.
use native.Mathlib.Decide.{ℕ_discrete}
use rfo_protocol.Base.{
  ℕ, zero, suc, ◌/◌, ◌%◌, ◌^◌, ◌<◌, ◌≡◌, ◌≢◌, refl, sym, ap, ◌∙◌, [], ◌∷◌, ◌++◌, arith, bit_xor,
  Bytes, AreBytes,
}
use rfo_protocol.Binary.Checksum.Xor.{and-one, xor-div, xor-lt32, xor_inj_left, xor_inj_right}
use rfo_protocol.Binary.Checksum.{
  polynomial, all_ones, crc_round, crc_rounds, crc_byte, crc_bytes, calculate_checksum,
}

crc_round-lt : (s : ℕ) → s < 2 ^ 32 → crc_round s < 2 ^ 32
unfolding crc_round
crc_round-lt s h = ground (arith, xor-lt32 (s / 2) polynomial (omega arith) (omega arith))

-- A word with the top digit set comes from an odd one.
top_digit : (s : ℕ) → s < 2 ^ 32 → crc_round s / 2 ^ 31 ≡ s % 2
unfolding crc_round
top_digit s h =
    let e : s / 2 / 2 ^ 31 ≡ 0 = omega arith in
    let top : bit_xor (s / 2) polynomial / 2 ^ 31 ≡ 1 =
      xor-div 31 (s / 2) polynomial ∙ ap (λ (t : ℕ). bit_xor t (polynomial / 2 ^ 31)) e in
    ground (arith, and-one s)

crc_round_even : (s : ℕ) → s % 2 ≡ 0 → crc_round s ≡ s / 2
unfolding crc_round
crc_round_even s h = ground (arith, and-one s)

crc_round_odd : (s : ℕ) → s % 2 ≡ 1 → crc_round s ≡ bit_xor (s / 2) polynomial
unfolding crc_round
crc_round_odd s h = ground (arith, and-one s)

same_parity : (s t : ℕ) → s < 2 ^ 32 → t < 2 ^ 32 → crc_round s ≡ crc_round t → s % 2 ≡ t % 2
same_parity s t p q e = omega (arith, top_digit s p, top_digit t q, ap (λ (w : ℕ). w / 2 ^ 31) e)

crc_round-inj : (s t : ℕ) → s < 2 ^ 32 → t < 2 ^ 32 → crc_round s ≡ crc_round t → s ≡ t
crc_round-inj s t p q e =
    let parity = same_parity s t p q e in
    elim (ℕ_discrete (s % 2) 0) [
      | yes even ↦ omega (arith, crc_round_even s even, crc_round_even t (omega arith))
      | no odd ↦ omega (
        arith,
        xor_inj_left (s / 2) (t / 2) polynomial
            (sym (crc_round_odd s (omega arith)) ∙ e ∙ crc_round_odd t (omega arith)),
      )
    ]

crc_rounds-lt : (n s : ℕ) → s < 2 ^ 32 → crc_rounds n s < 2 ^ 32
unfolding crc_rounds
crc_rounds-lt zero s h = h
crc_rounds-lt (suc n) s h = crc_rounds-lt n (crc_round s) (crc_round-lt s h)

crc_rounds-inj : (n s t : ℕ) → s < 2 ^ 32 → t < 2 ^ 32 → crc_rounds n s ≡ crc_rounds n t → s ≡ t
unfolding crc_rounds
crc_rounds-inj zero s t p q e = e
crc_rounds-inj (suc n) s t p q e =
    crc_round-inj s t p q
      (crc_rounds-inj n (crc_round s) (crc_round t) (crc_round-lt s p) (crc_round-lt t q) e)

crc_byte-lt : (s b : ℕ) → s < 2 ^ 32 → b < 256 → crc_byte s b < 2 ^ 32
unfolding crc_byte
crc_byte-lt s b p q = crc_rounds-lt 8 (bit_xor s b) (xor-lt32 s b p (omega arith))

crc_bytes-lt : (s : ℕ) (bs : Bytes) → s < 2 ^ 32 → AreBytes bs → crc_bytes s bs < 2 ^ 32
unfolding crc_bytes
crc_bytes-lt s [] p q = p
crc_bytes-lt s (b ∷ bs) p q = crc_bytes-lt (crc_byte s b) bs (crc_byte-lt s b p q.0) q.1

-- The same bytes take different words to different words.
crc_bytes-inj :
    (s t : ℕ) (bs : Bytes)
    → s < 2 ^ 32
    → t < 2 ^ 32
    → AreBytes bs
    → crc_bytes s bs ≡ crc_bytes t bs
    → s ≡ t
unfolding crc_bytes crc_byte
crc_bytes-inj s t [] p q h e = e
crc_bytes-inj s t (b ∷ bs) p q h e = xor_inj_left s t b (
    crc_rounds-inj 8 (bit_xor s b) (bit_xor t b) (xor-lt32 s b p (omega arith))
      (xor-lt32 t b q (omega arith))
      (crc_bytes-inj (crc_byte s b) (crc_byte t b) bs (unfold crc_byte in crc_byte-lt s b p h.0)
        (crc_byte-lt t b q h.0) h.1 e))

-- Different bytes take the same word to different words.
crc_byte-inj : (s a b : ℕ) → s < 2 ^ 32 → a < 256 → b < 256 → crc_byte s a ≡ crc_byte s b → a ≡ b
unfolding crc_byte
crc_byte-inj s a b h p q e = xor_inj_right s a b (
    crc_rounds-inj 8 (bit_xor s a) (bit_xor s b) (xor-lt32 s a h (omega arith))
      (xor-lt32 s b h (omega arith)) e)

crc_bytes-append : (s : ℕ) (xs ys : Bytes) → crc_bytes s (xs ++ ys) ≡ crc_bytes (crc_bytes s xs) ys
unfolding crc_bytes
crc_bytes-append s [] ys = refl
crc_bytes-append s (a ∷ xs) ys = crc_bytes-append (crc_byte s a) xs ys

-- The checksum of bytes is a u32.
pub calculate_checksum-lt : (bs : Bytes) → AreBytes bs → calculate_checksum bs < 2 ^ 32
unfolding calculate_checksum
calculate_checksum-lt bs h =
    xor-lt32 (crc_bytes all_ones bs) all_ones (crc_bytes-lt all_ones bs (omega arith) h)
      (omega arith)

-- Two byte strings that differ in exactly one byte, at any place, have different checksums.
pub calculate_checksum-detects_byte :
    (before after : Bytes) (a b : ℕ)
    → AreBytes before
    → AreBytes after
    → a < 256
    → b < 256
    → a ≢ b
    → calculate_checksum (before ++ (a ∷ after)) ≢ calculate_checksum (before ++ (b ∷ after))
unfolding calculate_checksum crc_bytes
calculate_checksum-detects_byte before after a b hb ha pa pb ne e =
    let s = crc_bytes all_ones before in
    let word = crc_bytes-lt all_ones before (omega arith) hb in
    ne (
      crc_byte-inj s a b word pa pb (
        crc_bytes-inj (crc_byte s a) (crc_byte s b) after (crc_byte-lt s a word pa)
          (crc_byte-lt s b word pb) ha
          (sym (crc_bytes-append all_ones before (a ∷ after))
            ∙ xor_inj_left _ _ all_ones e
            ∙ crc_bytes-append all_ones before (b ∷ after))))

-- The check value of CRC-32: the checksum of "123456789".
check_value : calculate_checksum (49 ∷ 50 ∷ 51 ∷ 52 ∷ 53 ∷ 54 ∷ 55 ∷ 56 ∷ 57 ∷ []) ≡ 0xcbf43926
unfolding calculate_checksum
check_value = refl
