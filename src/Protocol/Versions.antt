-- ===== src/Protocol/Versions.antt =====
-- Printing, parsing and comparing the versions of src/protocol.rs.
use rfo_protocol.Base.{
  ℕ, ◌+◌, ◌-◌, ◌*◌, ◌≤◌, ◌<◌, ◌≡◌, ◌↔◌, ◌⊎◌, refl, sym, ap, subst, ◌∙◌, true, some, [], ◌∷◌, ◌++◌,
  Text, All, arith, ne→==,
}
use rfo_protocol.Base.Print.{decimal}
use rfo_protocol.Base.Print.Decimal.{IsDigit, value, value-decimal, decimal-digits, decimal-first}
use rfo_protocol.Base.Strings.{split}
use rfo_protocol.Protocol.{
  ProtocolVersion, parse_digits, parse_u16, from_parts, from_three, parse, display, is_at_least,
  is_compatible,
}

-- A version is compatible with a minimum exactly if it has its major number and a minor and patch
-- number that are not below it, the minor number first.
pub is_compatible_iff :
    (v min : ProtocolVersion)
    → (is_compatible v min ≡ true) ↔ (
        (v.major ≡ min.major)
        × ((min.minor < v.minor) ⊎ ((v.minor ≡ min.minor) × (min.patch ≤ v.patch))))
unfolding is_compatible is_at_least
is_compatible_iff v min = ground arith

value-le : (n : ℕ) (s : Text) → n ≤ value n s
unfolding value
value-le n [] = omega arith
value-le n (c ∷ cs) = let more = value-le (n * 10 + (c - 48)) cs in omega arith

parse_digits-value :
    (n : ℕ) (s : Text) → All IsDigit s → value n s < 65536 → parse_digits n s ≡ some (value n s)
unfolding parse_digits value
parse_digits-value n [] h small = refl
parse_digits-value n (c ∷ cs) h small =
    let bound = value-le (n * 10 + (c - 48)) cs in
    rw (parse_digits-value (n * 10 + (c - 48)) cs h.1 small) (ground (arith, h.0, bound))

parse_u16-digits :
    (c : ℕ) (cs : Text) → All IsDigit (c ∷ cs) → parse_u16 (c ∷ cs) ≡ parse_digits 0 (c ∷ cs)
unfolding parse_u16
parse_u16-digits c [] h = refl
parse_u16-digits c (d ∷ cs) h = rw (ne→== c 43 (λ e. absurd (omega (arith, h.0, e))))

parse_u16-decimal : (n : ℕ) → n < 65536 → parse_u16 (decimal n) ≡ some n
parse_u16-decimal n small =
    let (d, ds, e) = decimal-first n in
    let digits = decimal-digits n in
    let whole = value-decimal n in
    ap parse_u16 e
    ∙ parse_u16-digits d ds (subst (All IsDigit) e digits)
    ∙ ap (parse_digits 0) (sym e)
    ∙ parse_digits-value 0 (decimal n) digits (omega arith)
    ∙ ap some whole

split-last : (s : Text) → All IsDigit s → split 46 s ≡ s ∷ []
unfolding split
split-last [] h = refl
split-last (c ∷ cs) h = rw (ne→== c 46 (λ e. absurd (omega (arith, h.0, e))), split-last cs h.1)

split-digits : (s rest : Text) → All IsDigit s → split 46 (s ++ (46 ∷ rest)) ≡ s ∷ split 46 rest
unfolding split
split-digits [] rest h = refl
split-digits (c ∷ cs) rest h =
    rw (ne→== c 46 (λ e. absurd (omega (arith, h.0, e))), split-digits cs rest h.1)

-- The printed form of a version whose numbers are u16 parses back to the version.
pub parse-display :
    (v : ProtocolVersion)
    → v.major < 65536
    → v.minor < 65536
    → v.patch < 65536
    → parse (display v) ≡ some v
unfolding parse display from_three from_parts
parse-display v a b c =
    rw
      (
        split-digits (decimal v.major) (decimal v.minor ++ (46 ∷ decimal v.patch))
            (decimal-digits v.major),
        split-digits (decimal v.minor) (decimal v.patch) (decimal-digits v.minor),
        split-last (decimal v.patch) (decimal-digits v.patch),
      )
      (rw (parse_u16-decimal v.major a, parse_u16-decimal v.minor b, parse_u16-decimal v.patch c))
