-- ===== src/Crypto/Derivation.antt =====
-- `derive_key` of src/crypto/mod.rs is the expansion of RFC 5869, as far as that goes.
use rfo_protocol.Base.{
  ℕ, zero, suc, ◌+◌, ◌-◌, ◌*◌, ◌%◌, ◌≤◌, ◌<◌, ◌≡◌, refl, sym, ap, ap₂, ◌∙◌, [], ◌∷◌, ◌++◌,
  append_assoc, append-nil, arith, Bytes, ltb, lt→ltb, le→ltb, ltb→lt, ltb→le, if◌then◌else◌,
  Bool-cases, inl, inr, length, take, min, length-append, length-take, take_all,
}
use rfo_protocol.Crypto.{Primitives, chained, next_block, expand, derive_key}

take-left : (n : ℕ) (xs ys : Bytes) → n ≤ length xs → take n (xs ++ ys) ≡ take n xs
take-left zero xs ys h = refl
take-left (suc n) [] ys h = absurd (omega arith)
take-left (suc n) (x ∷ xs) ys h = ap (λ r. x ∷ r) (take-left n xs ys (omega arith))

take-right :
    (n : ℕ) (xs ys : Bytes) → length xs ≤ n → take n (xs ++ ys) ≡ xs ++ take (n - length xs) ys
take-right n [] ys h = let e : n ≡ n - 0 = omega arith in ap (λ (k : ℕ). take k ys) e
take-right zero (x ∷ xs) ys h = absurd (omega arith)
take-right (suc n) (x ∷ xs) ys h =
    let e : n - length xs ≡ suc n - suc (length xs) = omega arith in
    ap (λ r. x ∷ r) (take-right n xs ys (omega arith) ∙ ap (λ (k : ℕ). xs ++ take k ys) e)

take_none : (n : ℕ) (xs : Bytes) → n ≡ 0 → take n xs ≡ []
take_none n xs h = ap (λ (k : ℕ). take k xs) h

module _ (p : Primitives) where
  -- RFC 5869: T(i) is the code of T(i - 1), the info and the byte i.
  unfoldable pub hkdf_blocks : Bytes → Bytes → Bytes → ℕ → ℕ → Bytes
  hkdf_blocks prk info previous i zero = []
  hkdf_blocks prk info previous i (suc k) =
      let block = p.hmac_sha256 prk (previous ++ (info ++ (i ∷ []))) in
      block ++ hkdf_blocks prk info block (i + 1) k

  module _ (prk info : Bytes)
      (wide : (key text : Bytes) → length (p.hmac_sha256 key text) ≡ 32) where
    pub expand_done :
        (fuel len counter : ℕ) (block output : Bytes)
        → len ≤ length output
        → expand p fuel prk info len counter block output ≡ output
    unfolding expand
    expand_done zero len counter block output h = refl
    expand_done (suc fuel) len counter block output h = rw (le→ltb (length output) len h)

    last_round :
        (fuel len counter : ℕ) (block output later : Bytes)
        → length block ≡ 32
        → len - length output ≤ 32
        → expand p fuel prk info len counter block
            (output ++ take (min (len - length output) 32) block)
          ≡ output ++ take (len - length output) (block ++ later)
    last_round fuel len counter block output later w near =
        let e : min (len - length output) 32 ≡ len - length output = omega arith in
        let covered : len ≤ length (output ++ take (min (len - length output) 32) block) = omega (
          arith,
          length-append {0} output (take (min (len - length output) 32) block),
          length-take {0} (min (len - length output) 32) block,
        ) in
        expand_done fuel len counter block (output ++ take (min (len - length output) 32) block)
          covered
        ∙ ap (λ xs. output ++ xs)
            (ap (λ (m : ℕ). take m block) e
              ∙ sym (take-left (len - length output) block later (omega arith)))

    full_round :
        (fuel len counter : ℕ) (block output : Bytes) (k : ℕ)
        → length block ≡ 32
        → 32 < len - length output
        → counter + suc k ≡ 256
        → 0 < k
        → expand p fuel prk info len
            ((counter + 1) % 256)
            block
            (output ++ take (min (len - length output) 32) block)
          ≡ expand p fuel prk info len (counter + 1) block (output ++ block)
    full_round fuel len counter block output k w far sum more =
        let e : min (len - length output) 32 ≡ 32 = omega arith in
        ap₂ (λ (c : ℕ) (t : Bytes). expand p fuel prk info len c block (output ++ t)) (omega arith)
          (ap (λ (m : ℕ). take m block) e ∙ take_all 32 block (omega arith))

    regroup :
        (len counter : ℕ) (block output : Bytes) (k : ℕ)
        → length block ≡ 32
        → 32 < len - length output
        → 1 ≤ counter
        → (output ++ block)
            ++ take
                (len - length (output ++ block))
                (hkdf_blocks prk info (chained p (counter + 1) block) (counter + 1) k)
          ≡ output
            ++ take (len - length output) (block ++ hkdf_blocks prk info block (counter + 1) k)
    regroup len counter block output k w far start =
        let c : chained p (counter + 1) block ≡ block =
          ap (λ b. if b then block else []) (lt→ltb 1 (counter + 1) (omega arith)) in
        let e : len - length (output ++ block) ≡ len - length output - length block =
          omega (arith, length-append {0} output block) in
        append_assoc output block _
        ∙ ap (λ xs. output ++ xs)
            (ap₂ (λ (m : ℕ) (t : Bytes). block ++ take m (hkdf_blocks prk info t (counter + 1) k)) e
                c
              ∙ sym (take-right (len - length output) block _ (omega arith)))

    expand-hkdf_blocks :
        (k fuel len counter : ℕ) (block output : Bytes)
        → counter + k ≡ 256
        → 1 ≤ counter
        → len - length output ≤ 32 * k
        → len - length output ≤ fuel
        → expand p fuel prk info len counter block output
          ≡ output
            ++ take (len - length output) (hkdf_blocks prk info (chained p counter block) counter k)
    unfolding expand hkdf_blocks next_block
    expand-hkdf_blocks zero fuel len counter block output sum start few enough =
        expand_done fuel len counter block output (omega arith)
        ∙ sym (
            ap (λ xs. output ++ xs) (take_none (len - length output) [] (omega arith))
            ∙ append-nil output)
    expand-hkdf_blocks (suc k) zero len counter block output sum start few enough = sym (
        ap (λ xs. output ++ xs) (take_none (len - length output) _ (omega arith))
        ∙ append-nil output)
    expand-hkdf_blocks (suc k) (suc fuel) len counter block output sum start few enough =
        let block' = next_block p prk info counter block in
        let w : length block' ≡ 32 = wide prk _ in
        elim (Bool-cases (ltb (length output) len)) [
          | inr full ↦ rw full (
              sym (
                ap (λ xs. output ++ xs)
                  (take_none (len - length output) _
                    (omega (arith, ltb→le (length output) len full)))
                ∙ append-nil output))
          | inl more ↦ elim (Bool-cases (ltb 32 (len - length output))) [
            | inr last ↦ rw more (
                last_round fuel len ((counter + 1) % 256) block' output _ w
                  (ltb→le 32 (len - length output) last))
            | inl next ↦ rw more (
                let far : 32 < len - length output = ltb→lt 32 (len - length output) next in
                full_round fuel len counter block' output k w far sum (omega arith)
                ∙ expand-hkdf_blocks k fuel len (counter + 1) block' (output ++ block')
                    (omega arith) (omega arith) (omega (arith, length-append {0} output block'))
                    (omega (arith, length-append {0} output block'))
                ∙ regroup len counter block' output k w far start)
          ]
        ]

  -- With HMAC-SHA256 of 32 bytes, up to 8160 bytes: what `derive_key` gives are the first `len` bytes
  -- of T(1), T(2), … of RFC 5869, from the key that HMAC extracts from the secret by the salt.
  pub derive_key-hkdf_blocks :
      ((key text : Bytes) → length (p.hmac_sha256 key text) ≡ 32)
      → (secret salt info : Bytes) (len : ℕ) → len ≤ 8160
      → derive_key p secret salt info len
        ≡ take len (hkdf_blocks (p.hmac_sha256 salt secret) info [] 1 255)
  unfolding derive_key
  derive_key-hkdf_blocks wide secret salt info len h =
      let e : len - 0 ≡ len = omega arith in
      expand-hkdf_blocks (p.hmac_sha256 salt secret) info wide 255 len len 1 [] [] (omega arith)
        (omega arith) (omega arith) (omega arith)
      ∙ ap (λ (m : ℕ). take m (hkdf_blocks (p.hmac_sha256 salt secret) info [] 1 255)) e
