-- ===== src/Ring/Latest.antt =====
-- A ring buffer of src/telemetry.rs and src/audit.rs holds the last entries, and no others.
use rfo_protocol.Base.{
  ℕ, zero, suc, ◌+◌, ◌%◌, ◌^◌, ◌≤◌, ◌<◌, ◌≡◌, refl, ◌∙◌, false, List, [], ◌∷◌, arith, length,
  get_elem?, ◌==◌, ne→==,
}
use rfo_protocol.Base.Keys.{nat_eq, lookup, lookup-insert, lookup-insert_self}
use rfo_protocol.Ring.{Ring, store, store_all}

-- Two entries less than `size` apart have different slots.
abbrev pub Spaced : ℕ → Type 0
Spaced size = (i j : ℕ) → i < j → j < i + size → (j % size == i % size) ≡ false

pub requests-Spaced : Spaced 100
requests-Spaced i j before near = ne→== (j % 100) (i % 100) λ e. absurd (omega arith)

pub events-Spaced : Spaced 500
events-Spaced i j before near = ne→== (j % 500) (i % 500) λ e. absurd (omega arith)

module _ {A : Type 0} (size : ℕ) (spaced : Spaced size) where
  -- Later entries, fewer than would come round, leave a slot as it is.
  store_all-earlier :
      (i : ℕ) (ring : Ring A) (entries : List A)
      → i < ring.index
      → ring.index + length entries ≤ i + size
      → ring.index + length entries < 2 ^ 64
      → lookup (i % size) (store_all size ring entries).slots ≡ lookup (i % size) ring.slots
  unfolding store_all store
  store_all-earlier i ring [] before near small = refl
  store_all-earlier i ring (entry ∷ entries) before near small =
      store_all-earlier i (store size ring entry) entries (omega arith) (omega arith) (omega arith)
      ∙ rw (
        lookup-insert (ring.index % size) (i % size) entry ring.slots,
        spaced i ring.index before (omega arith),
      )

  -- From a counter at `k`, the entry `i` of a sequence is found in the slot of `k + i` once the
  -- sequence is stored, if fewer than `size` entries come after it.
  pub store_all-latest :
      (i : ℕ) (ring : Ring A) (entries : List A)
      → i < length entries
      → length entries ≤ i + size
      → ring.index + length entries < 2 ^ 64
      → lookup ((ring.index + i) % size) (store_all size ring entries).slots ≡ get_elem? entries i
  unfolding store_all store
  store_all-latest i ring [] inside near small = absurd (omega arith)
  store_all-latest zero ring (entry ∷ entries) inside near small =
      let start : ring.index + 0 ≡ ring.index = omega arith in
      rw start (
        store_all-earlier ring.index (store size ring entry) entries (omega arith) (omega arith)
          (omega arith)
        ∙ lookup-insert_self (ring.index % size) entry ring.slots)
  store_all-latest (suc i) ring (entry ∷ entries) inside near small =
      let step : ring.index + suc i ≡ (ring.index + 1) % 2 ^ 64 + i = omega arith in
      rw step (
        store_all-latest i (store size ring entry) entries (omega arith) (omega arith)
          (omega arith))
