-- ===== src/Base/Print.antt =====
-- Numbers as text: `{}` and `{:08x}` of Rust's `format!`.
pub mod Decimal
use rfo_protocol.Base.Tests.{ltb, if◌then◌else◌}
use rfo_protocol.Base.Lists.{length, replicate}
use rfo_protocol.Base.Words.{Text}
use Prim.Native.Nat.{ℕ, zero, suc, ◌+◌, ◌-◌, ◌/◌, ◌%◌}
use mathlib.Core.List.{[], ◌∷◌, ◌++◌}

digit : ℕ → ℕ
digit d = if ltb d 10 then 48 + d else 87 + d

-- The digits of `n` in front of `acc`; the number itself bounds how many there are.
digits_before : ℕ → ℕ → ℕ → Text → Text
digits_before base zero n acc = acc
digits_before base (suc fuel) n acc =
    let more = digits_before base fuel (n / base) (digit (n % base) ∷ acc) in
    if ltb n base then digit n ∷ acc else more

unfoldable pub decimal : ℕ → Text
unfolding digit digits_before
decimal n = digits_before 10 (suc n) n []

-- At least eight hexadecimal digits.
unfoldable pub hex8 : ℕ → Text
unfolding digit digits_before
hex8 n = let s = digits_before 16 (suc n) n [] in replicate (8 - length s) 48 ++ s
