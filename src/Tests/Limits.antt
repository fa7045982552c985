-- ===== src/Tests/Limits.antt =====
-- The limiters, the telemetry and the audit log on small inputs.
use rfo_protocol.Base.{
  ℕ, ◌+◌, ◌-◌, ◌≤◌, ◌≡◌, refl, true, false, none, some, inl, List, [], ◌∷◌, ◌++◌, Text, codes,
  arith, length, map, replicate, min,
}
use rfo_protocol.Base.Keys.{text_eq, nat_eq, lookup, Distinct, none_yet, one_more}
use rfo_protocol.Limits.Rate.{RateLimitState, check_rate_limit, cleanup, decisions, max_requests}
use rfo_protocol.Limits.Rate.Burst.{StartsWindow, decisions-window}
use rfo_protocol.Limits.Rate.Isolation.{check_rate_limit-cleanup}
use rfo_protocol.Limits.Ddos.{DdosProtection, active_connections, check_connection, attempts}
use rfo_protocol.Limits.Ddos.Slots.{IsBlocked, check_connection-bound, blocked_address-exhausts}
use rfo_protocol.Telemetry.{new_tracker, history_of}
use rfo_protocol.Telemetry.History.{
  Score, record_scores, snapshots, last_fifty, record_scores-last_fifty,
}
use rfo_protocol.Audit.{
  AuditEvent, auth_success, with_ddos_protection, log, run_spawned, insert_row,
}
use rfo_protocol.Audit.Rows.{Step, logs, runs, logged, apply_all}
use rfo_protocol.Audit.Recent.{IsLogged, apply_all-IsLogged}

abbrev ip : Text
ip = codes "10.0.0.1"

abbrev other_ip : Text
other_ip = codes "10.0.0.2"

abbrev times : List ℕ
times = 1 ∷ 2 ∷ []

abbrev empty : RateLimitState
empty = record { entries = [] }

empty-StartsWindow : StartsWindow empty ip 0
unfolding StartsWindow lookup
empty-StartsWindow = inl refl

decisions-window_example :
    decisions empty (map (λ t. (ip, t)) (0 ∷ times))
    ≡ replicate (min (length times + 1) max_requests) true
      ++ replicate (length times + 1 - max_requests) false
decisions-window_example =
    decisions-window empty ip 0 times empty-StartsWindow (omega arith, (omega arith, tt))
      (omega arith)

abbrev asked : List (Text × ℕ)
asked = (ip, 1) ∷ (other_ip, 2) ∷ (ip, 3) ∷ []

abbrev counted : RateLimitState
counted = record { entries = (ip, record { count = 3; window_start = 0 }) ∷ [] }

counted-Distinct : Distinct counted.entries
unfolding lookup
counted-Distinct = one_more refl none_yet

check_rate_limit-cleanup_example :
    (check_rate_limit (cleanup counted 5) ip 9).0 ≡ (check_rate_limit counted ip 9).0
check_rate_limit-cleanup_example =
    check_rate_limit-cleanup ip counted 5 9 counted-Distinct (omega arith)

abbrev narrow : DdosProtection
narrow = record {
  connections_per_ip = (ip, record { count = 1; window_start = 0 }) ∷ [];
  global_connections = 1;
  max_per_ip = 1;
  max_global = 3;
}

narrow-IsBlocked : IsBlocked narrow ip 1 0
unfolding lookup
narrow-IsBlocked = record { entry = refl; used_up = omega arith }

blocked_address-exhausts_example :
    let (answers, d') = attempts narrow ip times in
    (answers ≡ replicate (length times) false)
    × ((other : Text) (now : ℕ) → (check_connection d' other now).0 ≡ false)
blocked_address-exhausts_example =
    blocked_address-exhausts narrow ip 1 0 times narrow-IsBlocked (omega arith)
      (omega arith, (omega arith, tt)) (omega arith) (omega arith)

check_connection-bound_example :
    let (allowed, d') = check_connection narrow other_ip 5 in
    (active_connections d' ≤ 3)
    × (active_connections narrow ≡ 3 → (allowed ≡ false) × (d' ≡ narrow))
check_connection-bound_example =
    check_connection-bound narrow other_ip 5 (omega arith)
      (unfold active_connections in omega arith)

abbrev idle : DdosProtection
idle = record narrow { global_connections = 0 }

abbrev scores : List Score
scores =
    record { site_id = codes "s"; domain = codes "d"; score = 80; now = 1 }
    ∷ record { site_id = codes "t"; domain = codes "e"; score = 10; now = 2 }
    ∷ record { site_id = codes "s"; domain = codes "d"; score = 90; now = 3 }
    ∷ []

record_scores-last_fifty_example :
    history_of (lookup (codes "s") (record_scores (new_tracker 0) scores).quality_history)
    ≡ last_fifty (snapshots (codes "s") scores)
record_scores-last_fifty_example = record_scores-last_fifty scores 0 (codes "s")

abbrev sites : List Text
sites = codes "s" ∷ codes "t" ∷ codes "s" ∷ []

abbrev an_event : ℕ → AuditEvent ℕ
an_event n = record {
  event_type = auth_success;
  severity = codes "info";
  source_ip = ip;
  api_key_name = none;
  endpoint = codes "/rfo/handshake";
  method = codes "POST";
  status_code = none;
  message = [];
  metadata = some n;
}

abbrev steps : List (Step ℕ)
steps = logs (an_event 1) ∷ logs (an_event 2) ∷ runs 1 true ∷ runs 0 false ∷ logs (an_event 3) ∷ []

apply_all-IsLogged_example : IsLogged steps (apply_all (with_ddos_protection true narrow) steps)
unfolding logged
apply_all-IsLogged_example = apply_all-IsLogged steps narrow (omega arith)

-- The second event's insert fails, and the third one's task has not run.
apply_all-rows : (apply_all (with_ddos_protection true narrow) steps).rows ≡ an_event 1 ∷ []
unfolding apply_all log run_spawned insert_row with_ddos_protection
apply_all-rows = refl
