-- ===== src/Limits/Ddos/Slots.antt =====
-- The connection slots of src/audit.rs.
use rfo_protocol.Base.{
  ℕ, ◌+◌, ◌-◌, ◌%◌, ◌^◌, ◌≤◌, ◌<◌, ◌≡◌, refl, ap, false, some, List, [], ◌∷◌, All, arith, Text, leb,
  length, replicate,
}
use rfo_protocol.Base.Keys.{text_eq, lookup, insert, lookup-insert_self}
use rfo_protocol.Limits.Window.{seconds_since, hit-running}
use rfo_protocol.Limits.Ddos.{
  DdosProtection, check_connection, release_connection, active_connections, attempts,
}

-- With a limit below 2^64 and at most that many connections open, a check never opens more connections
-- than the limit, and a check that finds no free slot refuses and changes nothing.
pub check_connection-bound :
    (d : DdosProtection) (ip : Text) (now : ℕ)
    → d.max_global < 2 ^ 64
    → active_connections d ≤ d.max_global
    → let (allowed, d') = check_connection d ip now in
      (active_connections d' ≤ d.max_global)
      × (active_connections d ≡ d.max_global → (allowed ≡ false) × (d' ≡ d))
unfolding check_connection active_connections
check_connection-bound d ip now small h = (ground arith, λ e. (ground arith, ground arith))

-- The address has used up its requests of the window.
pub record IsBlocked (d : DdosProtection) (ip : Text) (n start : ℕ) : Type 0 where
  pub entry : lookup ip d.connections_per_ip ≡ some (record { count = n; window_start = start })
  pub used_up : d.max_per_ip ≤ n

blocked_step : DdosProtection → Text → ℕ → ℕ → DdosProtection
blocked_step d ip n start = record d {
  connections_per_ip =
      insert ip (record { count = n + 1; window_start = start }) d.connections_per_ip;
  global_connections = d.global_connections + 1;
}

refused_step :
    (d : DdosProtection) (ip : Text) (now n start : ℕ)
    → IsBlocked d ip n start
    → n + 1 < 2 ^ 32
    → seconds_since start now < 60
    → d.global_connections < d.max_global
    → d.max_global < 2 ^ 64
    → check_connection d ip now ≡ (false, blocked_step d ip n start)
unfolding check_connection blocked_step
refused_step d ip now n start b small close room big =
    let free : leb d.max_global d.global_connections ≡ false = ground arith in
    let refused : leb (n + 1) d.max_per_ip ≡ false = ground (arith, b.used_up) in
    let counted : (d.global_connections + 1) % 2 ^ 64 ≡ d.global_connections + 1 = omega arith in
    rw (free, b.entry, hit-running 60 now n start close small, refused, counted)

flood :
    (d : DdosProtection) (ip : Text) (n start : ℕ) (times : List ℕ)
    → IsBlocked d ip n start
    → n + length times < 2 ^ 32
    → All (λ t. seconds_since start t < 60) times
    → d.global_connections + length times ≤ d.max_global
    → d.max_global < 2 ^ 64
    → ((attempts d ip times).0 ≡ replicate (length times) false)
      × ((attempts d ip times).1.global_connections ≡ d.global_connections + length times)
      × ((attempts d ip times).1.max_global ≡ d.max_global)
unfolding attempts blocked_step
flood d ip n start [] b small close room big = (refl, omega arith, refl)
flood d ip n start (t ∷ ts) b small close room big =
    let d' : DdosProtection = record d {
      connections_per_ip =
          insert ip (record { count = n + 1; window_start = start }) d.connections_per_ip;
      global_connections = d.global_connections + 1;
    } in
    let b' : IsBlocked d' ip (n + 1) start = record {
      entry = lookup-insert_self ip _ d.connections_per_ip;
      used_up = omega (arith, b.used_up);
    } in
    let rest = flood d' ip (n + 1) start ts b' (omega arith) close.1 (omega arith) big in
    rw (refused_step d ip t n start b (omega arith) close.0 (omega arith) big)
      (ap (λ r. false ∷ r) rest.0, omega (arith, rest.1), rest.2)

-- A refusal by the limit of an address keeps the slot that it took. So an address that is blocked and
-- asks on, within its window and fewer than 2^32 times, as often as there are free slots under a limit
-- below 2^64, is always refused, and then every address is refused.
pub blocked_address-exhausts :
    (d : DdosProtection) (ip : Text) (n start : ℕ) (times : List ℕ)
    → IsBlocked d ip n start
    → n + length times < 2 ^ 32
    → All (λ t. seconds_since start t < 60) times
    → d.global_connections + length times ≡ d.max_global
    → d.max_global < 2 ^ 64
    → let (answers, d') = attempts d ip times in
      (answers ≡ replicate (length times) false)
      × ((other : Text) (now : ℕ) → (check_connection d' other now).0 ≡ false)
blocked_address-exhausts d ip n start times b small close full big =
    let (answers, slots, limit) = flood d ip n start times b small close (omega arith) big in
    (answers, λ other now. no_slot (attempts d ip times).1 other now (omega arith))
  where
    no_slot :
        (e : DdosProtection) (other : Text) (now : ℕ)
        → e.max_global ≤ e.global_connections
        → (check_connection e other now).0 ≡ false
    no_slot e other now h = unfold check_connection in ground arith

-- A release with no connection open wraps the counter to 2^64 - 1, and with a limit below 2^64 the
-- next check, of any address, is refused.
pub release_connection-underflow :
    (d : DdosProtection) (ip other : Text) (now : ℕ)
    → active_connections d ≡ 0
    → d.max_global < 2 ^ 64
    → let d' = release_connection d ip in
      (active_connections d' ≡ 2 ^ 64 - 1) × ((check_connection d' other now).0 ≡ false)
unfolding check_connection release_connection active_connections
release_connection-underflow d ip other now none_open big = (omega arith, ground arith)
