-- ===== src/Base/Print/Decimal.antt =====
-- `decimal` prints digits, at least one, whose value is the number.
use rfo_protocol.Base.Tests.{ltb, lt→ltb, ltb→lt, ltb→le, Bool-cases}
use rfo_protocol.Base.Lists.{All}
use rfo_protocol.Base.Words.{Text}
use rfo_protocol.Base.Print.{digit, digits_before, decimal}
use Prim.Native.Nat.{ℕ, zero, suc, ◌+◌, ◌-◌, ◌*◌, ◌/◌, ◌%◌, ◌≤◌, ◌<◌}
use mathlib.Core.Path.{◌≡◌, refl, ap, ◌∙◌}
use mathlib.Core.Logic.{inl, inr}
use mathlib.Core.List.{[], ◌∷◌}
use native.Mathlib.Omega.{arith}

abbrev pub IsDigit : ℕ → Type 0
IsDigit c = (48 ≤ c) × (c ≤ 57)

-- The number that digits read from the left on give, from `a` on.
unfoldable pub value : ℕ → Text → ℕ
value a [] = a
value a (c ∷ cs) = value (a * 10 + (c - 48)) cs

digit-small : (d : ℕ) → d < 10 → digit d ≡ 48 + d
unfolding digit
digit-small d h = rw (lt→ltb d 10 h)

value-digits_before :
    (fuel n : ℕ) (acc : Text) → n < fuel → value 0 (digits_before 10 fuel n acc) ≡ value n acc
unfolding digits_before value
value-digits_before zero n acc h = absurd (omega arith)
value-digits_before (suc fuel) n acc h = elim (Bool-cases (ltb n 10)) [
  | inl small ↦
      let lt = ltb→lt n 10 small in
      let e : 0 * 10 + (48 + n - 48) ≡ n = omega arith in
      rw (small, digit-small n lt) (ap (λ (k : ℕ). value k acc) e)
  | inr large ↦
      let ge = ltb→le n 10 large in
      let e : n / 10 * 10 + (48 + n % 10 - 48) ≡ n = omega arith in
      rw large (
        value-digits_before fuel (n / 10) (digit (n % 10) ∷ acc) (omega arith)
        ∙ rw (digit-small (n % 10) (omega arith)) (ap (λ (k : ℕ). value k acc) e))
]

digits_before-digits :
    (fuel n : ℕ) (acc : Text) → All IsDigit acc → All IsDigit (digits_before 10 fuel n acc)
unfolding digits_before
digits_before-digits zero n acc h = h
digits_before-digits (suc fuel) n acc h = elim (Bool-cases (ltb n 10)) [
  | inl small ↦
      let lt = ltb→lt n 10 small in rw (small, digit-small n lt) ((omega arith, omega arith), h)
  | inr large ↦ rw large (
      digits_before-digits fuel (n / 10) (digit (n % 10) ∷ acc)
        (rw (digit-small (n % 10) (omega arith)) ((omega arith, omega arith), h)))
]

digits_before-first :
    (fuel n c : ℕ) (acc : Text)
    → (d : ℕ) × (ds : Text) × (digits_before 10 fuel n (c ∷ acc) ≡ d ∷ ds)
unfolding digits_before
digits_before-first zero n c acc = (c, acc, refl)
digits_before-first (suc fuel) n c acc = elim (Bool-cases (ltb n 10)) [
  | inl small ↦ (digit n, c ∷ acc, rw small)
  | inr large ↦
      let (d, ds, e) = digits_before-first fuel (n / 10) (digit (n % 10)) (c ∷ acc) in
      (d, ds, rw large e)
]

pub value-decimal : (n : ℕ) → value 0 (decimal n) ≡ n
unfolding decimal value
value-decimal n = value-digits_before (suc n) n [] (omega arith)

pub decimal-digits : (n : ℕ) → All IsDigit (decimal n)
unfolding decimal
decimal-digits n = digits_before-digits (suc n) n [] tt

pub decimal-first : (n : ℕ) → (d : ℕ) × (ds : Text) × (decimal n ≡ d ∷ ds)
unfolding decimal digits_before
decimal-first n = elim (Bool-cases (ltb n 10)) [
  | inl small ↦ (digit n, [], rw small)
  | inr large ↦
      let (d, ds, e) = digits_before-first n (n / 10) (digit (n % 10)) [] in (d, ds, rw large e)
]
