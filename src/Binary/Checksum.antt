-- ===== src/Binary/Checksum.antt =====
-- `calculate_checksum` of src/binary.rs: CRC-32, bit by bit, over 32-bit words.
mod Xor
pub mod Detect
use rfo_protocol.Base.{
  ℕ, zero, suc, ◌/◌, List, [], ◌∷◌, Bytes, bit_and, bit_xor, ◌==◌, if◌then◌else◌,
}

abbrev pub polynomial : ℕ
polynomial = 0xedb88320

abbrev pub all_ones : ℕ
all_ones = 0xffffffff

-- One round of the inner loop; `crc >> 1` is `crc / 2`.
pub crc_round : ℕ → ℕ
crc_round crc = if bit_and crc 1 == 0 then crc / 2 else bit_xor (crc / 2) polynomial

-- `for _ in 0..n`
pub crc_rounds : ℕ → ℕ → ℕ
crc_rounds zero crc = crc
crc_rounds (suc n) crc = crc_rounds n (crc_round crc)

pub crc_byte : ℕ → ℕ → ℕ
crc_byte crc byte = crc_rounds 8 (bit_xor crc byte)

-- `for byte in data`
pub crc_bytes : ℕ → Bytes → ℕ
crc_bytes crc [] = crc
crc_bytes crc (byte ∷ rest) = crc_bytes (crc_byte crc byte) rest

unfoldable pub calculate_checksum : Bytes → ℕ
unfolding crc_round crc_rounds crc_byte crc_bytes
calculate_checksum bytes = bit_xor (crc_bytes all_ones bytes) all_ones
