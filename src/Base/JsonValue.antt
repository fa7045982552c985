-- ===== src/Base/JsonValue.antt =====
-- Values of serde_json, as `serde_json::json!` builds them.
use Prim.Native.Nat.{ℕ}
use mathlib.Core.Bool.{Bool}
use rfo_protocol.Base.Words.{Text}

mutual
  pub data JsonValue : Type 0 where
    null : JsonValue
    truth : Bool → JsonValue
    number : ℕ → JsonValue
    string : Text → JsonValue
    array : Items → JsonValue
    object : Fields → JsonValue

  pub data Items : Type 0 where
    no_items : Items
    item : JsonValue → Items → Items

  pub data Fields : Type 0 where
    no_fields : Fields
    field : Text → JsonValue → Fields → Fields
