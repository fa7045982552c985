-- ===== src/Limits/Ddos.antt =====
-- `DdosProtection` of src/audit.rs: a limit for each address and window, and a limit on the
-- connections that are open. The counter of open connections is an AtomicU64, which wraps. Each call is
-- one step here; between the two atomic operations of a refused call other threads may see one more.
pub mod Slots
use rfo_protocol.Base.{
  ℕ, ◌+◌, ◌-◌, ◌%◌, ◌^◌, Bool, true, false, Option, none, some, List, [], ◌∷◌, Text, leb,
  if◌then◌else◌,
}
use rfo_protocol.Base.Keys.{Assoc, text_eq, lookup, insert}
use rfo_protocol.Limits.Window.{Counter, fresh, hit}

pub record DdosProtection : Type 0 where
  pub connections_per_ip : Assoc Text Counter
  pub global_connections : ℕ
  pub max_per_ip : ℕ
  pub max_global : ℕ

-- `DdosProtection::new`
unfoldable pub new_protection : ℕ → ℕ → DdosProtection
new_protection max_per_ip max_global = record {
  connections_per_ip = [];
  global_connections = 0;
  max_per_ip = max_per_ip;
  max_global = max_global;
}

abbrev pub fetch_add_one : ℕ → ℕ
fetch_add_one n = (n + 1) % 2 ^ 64

abbrev pub fetch_sub_one : ℕ → ℕ
fetch_sub_one n = (n + 2 ^ 64 - 1) % 2 ^ 64

abbrev pub or_fresh : Option Counter → ℕ → Counter
or_fresh none now = fresh now
or_fresh (some entry) now = entry

-- `true` if the connection is allowed.
unfoldable pub check_connection : DdosProtection → Text → ℕ → Bool × DdosProtection
check_connection d ip now =
    let global = d.global_connections in
    let counted = record d { global_connections = fetch_add_one global } in
    if leb d.max_global global
    then (false, record counted { global_connections = fetch_sub_one counted.global_connections })
    else let entry = hit 60 now (or_fresh (lookup ip d.connections_per_ip) now) in
      (
        leb entry.count d.max_per_ip,
        record counted { connections_per_ip = insert ip entry d.connections_per_ip },
      )

unfoldable pub release_connection : DdosProtection → Text → DdosProtection
release_connection d ip = record d { global_connections = fetch_sub_one d.global_connections }

unfoldable pub active_connections : DdosProtection → ℕ
active_connections d = d.global_connections

-- An address that asks at each of these times: the answers, and the protection after them.
pub attempts : DdosProtection → Text → List ℕ → List Bool × DdosProtection
attempts d ip [] = ([], d)
attempts d ip (now ∷ later) =
    let (allowed, d') = check_connection d ip now in
    let (rest, d'') = attempts d' ip later in (allowed ∷ rest, d'')
