-- ===== src/Base/Words.antt =====
-- Bytes and text as lists of numbers, and the big-endian forms of u16 and u32.
use Prim.Native.Nat.{ℕ, ◌+◌, ◌*◌, ◌/◌, ◌%◌, ◌^◌, ◌<◌}
use Prim.Native.Char.{code}
use Prim.Native.String.{String}
use mathlib.Core.List.{List, [], ◌∷◌}
use rfo_protocol.Base.Lists.{All}

abbrev pub Bytes : Type 0
Bytes = List ℕ

-- Text is its list of code points, which are its bytes where it is ASCII.
abbrev pub Text : Type 0
Text = List ℕ

abbrev pub codes : String → Text
codes String.[] = []
codes (String.◌∷◌ c s) = code c ∷ codes s

abbrev pub IsByte : ℕ → Type 0
IsByte b = b < 256

abbrev pub AreBytes : Bytes → Type 0
AreBytes = All IsByte

-- `to_be_bytes` of a u16 and of a u32.
abbrev pub be16_bytes : ℕ → Bytes
be16_bytes n = (n / 256 % 256) ∷ (n % 256) ∷ []

abbrev pub be32_bytes : ℕ → Bytes
be32_bytes n = (n / 16777216 % 256) ∷ (n / 65536 % 256) ∷ (n / 256 % 256) ∷ (n % 256) ∷ []

-- `from_be_bytes`
abbrev pub from_be16 : ℕ → ℕ → ℕ
from_be16 a b = a * 256 + b

abbrev pub from_be32 : ℕ → ℕ → ℕ → ℕ → ℕ
from_be32 a b c d = a * 16777216 + b * 65536 + c * 256 + d

-- `n as u32`
abbrev pub as_u32 : ℕ → ℕ
as_u32 n = n % 2 ^ 32
