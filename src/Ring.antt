-- ===== src/Ring.antt =====
-- The ring buffers of src/telemetry.rs (`recent_requests`) and src/audit.rs (`buffer`): a map from
-- slots to the last entries, and a counter that gives each entry its slot.
pub mod Latest
use rfo_protocol.Base.{ℕ, suc, ◌+◌, ◌%◌, ◌^◌, List, [], ◌∷◌}
use rfo_protocol.Base.Keys.{Assoc, nat_eq, insert}

pub record Ring (A : Type 0) : Type 0 where
  pub index : ℕ
  pub slots : Assoc ℕ A

unfoldable pub new_ring : {A : Type 0} → Ring A
new_ring = record { index = 0; slots = [] }

-- `fetch_add(1) % size` on a u64, and `insert` at that slot.
unfoldable pub store : {A : Type 0} → ℕ → Ring A → A → Ring A
store size ring entry = record {
  index = (ring.index + 1) % 2 ^ 64;
  slots = insert (ring.index % size) entry ring.slots;
}

unfoldable pub store_all : {A : Type 0} → ℕ → Ring A → List A → Ring A
store_all size ring [] = ring
store_all size ring (entry ∷ entries) = store_all size (store size ring entry) entries
