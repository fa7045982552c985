-- ===== src/Base/Keys.antt =====
-- Keys that can be compared, and maps from such keys (`HashMap`, `DashMap`) as association lists.
-- The order of the list is the order in which the source would iterate, which it does not fix.
use rfo_protocol.Base.Tests.{◌==◌, ==_iff, if◌then◌else◌, Bool-cases}
use rfo_protocol.Base.Words.{Text}
use Prim.Native.Nat.{ℕ}
use mathlib.Core.Path.{◌≡◌, refl, subst}
use mathlib.Core.Logic.{◌↔◌, inl, inr}
use mathlib.Core.Bool.{Bool, true, false, ◌&&◌}
use mathlib.Core.Option.{Option, none, some}
use mathlib.Core.List.{List, [], ◌∷◌}
use native.Mathlib.Omega.{arith}

pub record Eq {ℓ} (A : Type ℓ) : Type ℓ where
  pub beq : A → A → Bool
  pub beq_iff : (a b : A) → (beq a b ≡ true) ↔ (a ≡ b)

abbrev nat_beq : ℕ → ℕ → Bool
nat_beq a b = a == b

instance abbrev pub nat_eq : Eq ℕ
nat_eq = record { beq = nat_beq; beq_iff = ==_iff }

abbrev pub text_beq : Text → Text → Bool
text_beq [] [] = true
text_beq [] (y ∷ ys) = false
text_beq (x ∷ xs) [] = false
text_beq (x ∷ xs) (y ∷ ys) = (x == y) && text_beq xs ys

pub text_beq_iff : (a b : Text) → (text_beq a b ≡ true) ↔ (a ≡ b)
text_beq_iff [] [] = ground arith
text_beq_iff [] (y ∷ ys) = ground arith
text_beq_iff (x ∷ xs) [] = ground arith
text_beq_iff (x ∷ xs) (y ∷ ys) = ground (arith, text_beq_iff xs ys)

instance abbrev pub text_eq : Eq Text
text_eq = record { beq = text_beq; beq_iff = text_beq_iff }

abbrev pub Assoc {ℓ κ} : Type ℓ → Type κ → Type (ℓ ⊔ κ)
Assoc K V = List (K × V)

pub beq_refl {ℓ} : {K : Type ℓ} ⦃e : Eq K⦄ (k : K) → e.beq k k ≡ true
beq_refl ⦃e⦄ k = (e.beq_iff k k).1 refl

module _ {ℓ κ} {K : Type ℓ} {V : Type κ} ⦃e : Eq K⦄ where
  unfoldable pub lookup : K → Assoc K V → Option V
  lookup k [] = none
  lookup k ((j, v) ∷ m) = if e.beq j k then some v else lookup k m

  unfoldable pub remove : K → Assoc K V → Assoc K V
  remove k [] = []
  remove k ((j, v) ∷ m) = let rest = remove k m in if e.beq j k then rest else (j, v) ∷ rest

  -- A write keeps the place of a key that is there.
  unfoldable pub insert : K → V → Assoc K V → Assoc K V
  insert k v [] = (k, v) ∷ []
  insert k v ((j, w) ∷ m) = if e.beq j k then (k, v) ∷ m else (j, w) ∷ insert k v m

  pub lookup-insert :
      (k j : K) (v : V) (m : Assoc K V)
      → lookup j (insert k v m) ≡ (if e.beq k j then some v else lookup j m)
  unfolding lookup insert
  lookup-insert k j v [] = refl
  lookup-insert k j v ((i, w) ∷ m) =
      ground (arith, e.beq_iff k j, e.beq_iff i k, e.beq_iff i j, lookup-insert k j v m)

  pub lookup-remove :
      (k j : K) (m : Assoc K V) → lookup j (remove k m) ≡ (if e.beq k j then none else lookup j m)
  unfolding lookup remove
  lookup-remove k j [] = ground arith
  lookup-remove k j ((i, w) ∷ m) =
      ground (arith, e.beq_iff k j, e.beq_iff i k, e.beq_iff i j, lookup-remove k j m)

  pub lookup-insert_self : (k : K) (v : V) (m : Assoc K V) → lookup k (insert k v m) ≡ some v
  lookup-insert_self k v m = simp (lookup-insert, beq_refl)

-- Every key stands once: the invariant of a map.
module _ {ℓ κ} {K : Type ℓ} {V : Type κ} ⦃e : Eq K⦄ where
  pub data Distinct : Assoc K V → Type (ℓ ⊔ κ) where
    none_yet : Distinct []
    one_more :
        {k : K} {v : V} {m : Assoc K V} → lookup k m ≡ none → Distinct m → Distinct ((k, v) ∷ m)

  -- `retain(|k, v| …)`
  unfoldable pub retain : (K → V → Bool) → Assoc K V → Assoc K V
  retain keep [] = []
  retain keep ((k, v) ∷ m) = let rest = retain keep m in if keep k v then (k, v) ∷ rest else rest

  unfoldable pub kept : (K → V → Bool) → K → Option V → Option V
  kept keep k none = none
  kept keep k (some v) = if keep k v then some v else none

  lookup-insert_other :
      (k j : K) (v : V) (m : Assoc K V)
      → e.beq j k ≡ false
      → lookup j m ≡ none
      → lookup j (insert k v m) ≡ none
  lookup-insert_other k j v m other new =
      ground (arith, lookup-insert k j v m, e.beq_iff j k, e.beq_iff k j)

  pub insert-Distinct : (k : K) (v : V) {m : Assoc K V} → Distinct m → Distinct (insert k v m)
  unfolding insert lookup
  insert-Distinct k v none_yet = one_more refl none_yet
  insert-Distinct k v (one_more {k = j} {v = w} {m = m} new d) = elim (Bool-cases (e.beq j k)) [
    | inl same ↦ rw same (one_more (subst (λ x. lookup x m ≡ none) ((e.beq_iff j k).0 same) new) d)
    | inr other ↦
        rw other (one_more (lookup-insert_other k j v m other new) (insert-Distinct k v d))
  ]

  lookup-retain-none :
      (keep : K → V → Bool) (k : K) (m : Assoc K V)
      → lookup k m ≡ none
      → lookup k (retain keep m) ≡ none
  unfolding lookup retain
  lookup-retain-none keep k [] h = refl
  lookup-retain-none keep k ((j, v) ∷ m) h = ground (arith, lookup-retain-none keep k m)

  -- What a lookup finds after `retain`.
  pub lookup-retain :
      (keep : K → V → Bool) (k : K) {m : Assoc K V}
      → Distinct m
      → lookup k (retain keep m) ≡ kept keep k (lookup k m)
  unfolding lookup retain kept
  lookup-retain keep k none_yet = refl
  lookup-retain keep k (one_more {k = j} {v = w} {m = m} new d) =
      ground (arith, lookup-retain keep k d, lookup-retain-none keep j m new, e.beq_iff j k)

  lookup-remove-none : (k j : K) (m : Assoc K V) → lookup j m ≡ none → lookup j (remove k m) ≡ none
  lookup-remove-none k j m h = ground (arith, lookup-remove k j m)

  pub remove-Distinct : (k : K) {m : Assoc K V} → Distinct m → Distinct (remove k m)
  unfolding remove
  remove-Distinct k none_yet = none_yet
  remove-Distinct k (one_more {k = j} {m = m} new d) = elim (Bool-cases (e.beq j k)) [
    | inl same ↦ rw same (remove-Distinct k d)
    | inr other ↦ rw other (one_more (lookup-remove-none k j m new) (remove-Distinct k d))
  ]

  pub retain-Distinct :
      (keep : K → V → Bool) {m : Assoc K V} → Distinct m → Distinct (retain keep m)
  unfolding retain
  retain-Distinct keep none_yet = none_yet
  retain-Distinct keep (one_more {k = j} {v = w} {m = m} new d) = elim (Bool-cases (keep j w)) [
    | inl stays ↦ rw stays (one_more (lookup-retain-none keep j m new) (retain-Distinct keep d))
    | inr goes ↦ rw goes (retain-Distinct keep d)
  ]
