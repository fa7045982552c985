-- ===== src/Audit.antt =====
-- The audit logger of src/audit.rs. The metadata is a value of serde_json, whose type is a parameter;
-- `db` says whether there is a database. `log` spawns a task for each insert, and the runtime runs
-- the tasks when and in the order it likes: `tasks` are the events whose task has not run yet, `rows`
-- those inserted, and `traced` those whose insert failed, which the task only traces.
pub mod Rows
pub mod Recent
use rfo_protocol.Base.{
  ℕ, zero, suc, Bool, true, false, Option, none, some, List, [], ◌∷◌, ◌++◌, Text, codes,
  if◌then◌else◌, take, map, get_elem?, delete_at,
}
use rfo_protocol.Base.Int.{ℤ}
use rfo_protocol.Base.Keys.{Assoc}
use rfo_protocol.Ring.{Ring, new_ring, store}
use rfo_protocol.Limits.Ddos.{DdosProtection, new_protection}

pub data AuditEventType : Type 0 where
  auth_success auth_failure rate_limit_hit signature_valid signature_invalid : AuditEventType
  handshake_completed batch_handshake site_registered payload_access : AuditEventType
  server_start server_error : AuditEventType

unfoldable pub as_str : AuditEventType → Text
as_str auth_success = codes "auth.success"
as_str auth_failure = codes "auth.failure"
as_str rate_limit_hit = codes "rate_limit.hit"
as_str signature_valid = codes "signature.valid"
as_str signature_invalid = codes "signature.invalid"
as_str handshake_completed = codes "handshake.completed"
as_str batch_handshake = codes "handshake.batch"
as_str site_registered = codes "site.registered"
as_str payload_access = codes "payload.access"
as_str server_start = codes "server.start"
as_str server_error = codes "server.error"

pub record AuditEvent (V : Type 0) : Type 0 where
  pub event_type : AuditEventType
  pub severity : Text
  pub source_ip : Text
  pub api_key_name : Option Text
  pub endpoint : Text
  pub method : Text
  pub status_code : Option ℤ
  pub message : Text
  pub metadata : Option V

pub record AuditLogger (V : Type 0) : Type 0 where
  pub db : Bool
  pub buffer : Ring (AuditEvent V)
  pub ddos : DdosProtection
  pub tasks : List (AuditEvent V)
  pub rows : List (AuditEvent V)
  pub traced : List (AuditEvent V)

-- `events.reverse()`
unfoldable pub reversed : {A : Type 0} → List A → List A
reversed [] = []
reversed (x ∷ xs) = reversed xs ++ (x ∷ [])

values : {A : Type 0} → Assoc ℕ A → List A
values [] = []
values ((k, a) ∷ entries) = a ∷ values entries

module _ {V : Type 0} where
  unfoldable pub with_ddos_protection : Bool → DdosProtection → AuditLogger V
  with_ddos_protection db ddos = record {
    db = db;
    buffer = new_ring;
    ddos = ddos;
    tasks = [];
    rows = [];
    traced = [];
  }

  unfoldable pub new_logger : Bool → AuditLogger V
  unfolding with_ddos_protection
  new_logger db = with_ddos_protection db (new_protection 100 1000)

  unfoldable pub log : AuditLogger V → AuditEvent V → AuditLogger V
  log logger event = record logger {
    buffer = store 500 logger.buffer event;
    tasks = if logger.db then event ∷ logger.tasks else logger.tasks;
  }

  -- The body of a spawned task; `written` is whether the database took the row.
  unfoldable pub insert_row : AuditLogger V → AuditEvent V → Bool → AuditLogger V
  insert_row logger event written =
      if written
      then record logger { rows = event ∷ logger.rows }
      else record logger { traced = event ∷ logger.traced }

  -- The runtime runs the spawned task of that number, if there is one.
  unfoldable pub run_spawned : AuditLogger V → ℕ → Bool → AuditLogger V
  unfolding insert_row
  run_spawned logger n written = elim (get_elem? logger.tasks n) [
    | none ↦ logger
    | some event ↦ insert_row (record logger { tasks = delete_at n logger.tasks }) event written
  ]

  unfoldable pub recent_events : AuditLogger V → ℕ → List (AuditEvent V)
  unfolding values
  recent_events logger count = take count (reversed (values logger.buffer.slots))
