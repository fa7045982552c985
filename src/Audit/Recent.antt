-- ===== src/Audit/Recent.antt =====
-- The audit logger of src/audit.rs after any run of `log` calls and of the tasks that these spawn.
use mathlib.Core.List.{Perm, perm_middle}
use mathlib.Core.List.Perm
use rfo_protocol.Base.{
  ℕ, ◌+◌, ◌%◌, ◌^◌, ◌≤◌, ◌<◌, ◌≡◌, refl, sym, ap, ◌∙◌, subst, Bool, true, false, List, [], ◌∷◌,
  ◌++◌, append-nil, arith, length, get_elem?, Option-cases, inl, inr,
}
use rfo_protocol.Base.Keys.{nat_eq, lookup}
use rfo_protocol.Ring.{new_ring, store_all}
use rfo_protocol.Ring.Latest.{events-Spaced, store_all-latest}
use rfo_protocol.Limits.Ddos.{DdosProtection}
use rfo_protocol.Audit.{AuditEvent, AuditLogger, with_ddos_protection, log, insert_row, run_spawned}
use rfo_protocol.Audit.Rows.{
  Step, logs, runs, apply_all, logged, refusals, accounted, log-accounted, run_spawned-accounted,
  one_refusal,
}

module _ {V : Type 0} where
  insert_row-db :
      (logger : AuditLogger V) (event : AuditEvent V) (written : Bool)
      → (insert_row logger event written).db ≡ logger.db
  unfolding insert_row
  insert_row-db logger event true = refl
  insert_row-db logger event false = refl

  run_spawned-db :
      (logger : AuditLogger V) (n : ℕ) (written : Bool)
      → (run_spawned logger n written).db ≡ logger.db
  unfolding run_spawned
  run_spawned-db logger n written = elim (Option-cases (get_elem? logger.tasks n)) [
    | inl out ↦ rw (out, run_spawned) refl
    | inr (event, there) ↦ rw (there, run_spawned) (insert_row-db _ event written)
  ]

  insert_row-buffer :
      (logger : AuditLogger V) (event : AuditEvent V) (written : Bool)
      → (insert_row logger event written).buffer ≡ logger.buffer
  unfolding insert_row
  insert_row-buffer logger event true = refl
  insert_row-buffer logger event false = refl

  run_spawned-buffer :
      (logger : AuditLogger V) (n : ℕ) (written : Bool)
      → (run_spawned logger n written).buffer ≡ logger.buffer
  unfolding run_spawned
  run_spawned-buffer logger n written = elim (Option-cases (get_elem? logger.tasks n)) [
    | inl out ↦ rw (out, run_spawned) refl
    | inr (event, there) ↦ rw (there, run_spawned) (insert_row-buffer _ event written)
  ]

  insert_row-traced :
      (logger : AuditLogger V) (event : AuditEvent V) (written : Bool)
      → length (insert_row logger event written).traced ≤ one_refusal written + length logger.traced
  unfolding insert_row
  insert_row-traced logger event true = omega arith
  insert_row-traced logger event false = omega arith

  run_spawned-traced :
      (logger : AuditLogger V) (n : ℕ) (written : Bool)
      → length (run_spawned logger n written).traced ≤ one_refusal written + length logger.traced
  unfolding run_spawned
  run_spawned-traced logger n written = elim (Option-cases (get_elem? logger.tasks n)) [
    | inl out ↦ rw (out, run_spawned) (omega arith)
    | inr (event, there) ↦ rw (there, run_spawned) (insert_row-traced _ event written)
  ]

  apply_all-accounted :
      (steps : List (Step V)) (logger : AuditLogger V)
      → logger.db ≡ true
      → Perm (accounted (apply_all logger steps)) (logged steps ++ accounted logger)
  unfolding apply_all logged
  apply_all-accounted [] logger on = Perm.rfl
  apply_all-accounted (logs event ∷ steps) logger on =
      Perm.trans (apply_all-accounted steps (log logger event) (unfold log in on)) (
        Perm.trans (Perm.append_left (logged steps) (log-accounted logger event on))
          (perm_middle (logged steps) (accounted logger)))
  apply_all-accounted (runs n written ∷ steps) logger on =
      Perm.trans
        (apply_all-accounted steps (run_spawned logger n written)
          (run_spawned-db logger n written ∙ on))
        (Perm.append_left (logged steps) (run_spawned-accounted logger n written))

  apply_all-traced :
      (steps : List (Step V)) (logger : AuditLogger V)
      → length (apply_all logger steps).traced ≤ refusals steps + length logger.traced
  unfolding apply_all refusals log
  apply_all-traced [] logger = omega arith
  apply_all-traced (logs event ∷ steps) logger = apply_all-traced steps (log logger event)
  apply_all-traced (runs n true ∷ steps) logger =
      omega (
        arith,
        apply_all-traced steps (run_spawned logger n true),
        run_spawned-traced logger n true,
      )
  apply_all-traced (runs n false ∷ steps) logger = omega (
    arith,
    apply_all-traced steps (run_spawned logger n false),
    run_spawned-traced logger n false,
  )

  apply_all-buffer :
      (steps : List (Step V)) (logger : AuditLogger V)
      → (apply_all logger steps).buffer ≡ store_all 500 logger.buffer (logged steps)
  unfolding apply_all logged store_all log
  apply_all-buffer [] logger = refl
  apply_all-buffer (logs event ∷ steps) logger = apply_all-buffer steps (log logger event)
  apply_all-buffer (runs n written ∷ steps) logger =
      apply_all-buffer steps (run_spawned logger n written)
      ∙ ap (λ b. store_all 500 b (logged steps)) (run_spawned-buffer logger n written)

-- What a run of steps leaves in a logger with a database.
pub record IsLogged {V : Type 0} (steps : List (Step V)) (logger : AuditLogger V) : Type 0 where
  pub accounts : Perm (accounted logger) (logged steps)
  pub few : length logger.traced ≤ refusals steps
  pub latest :
      (i : ℕ)
      → i < length (logged steps)
      → length (logged steps) ≤ i + 500
      → lookup (i % 500) logger.buffer.slots ≡ get_elem? (logged steps) i

-- In any run of a logger with a database, of fewer than 2^64 calls of log with the tasks of the inserts
-- run in any order, each event logged is exactly once a row, traced, or still waits for its task, and no
-- more are traced than the database refused. The buffer has each of the last five hundred events in the
-- slot of its number modulo 500.
pub apply_all-IsLogged :
    {V : Type 0} (steps : List (Step V)) (ddos : DdosProtection)
    → length (logged steps) < 2 ^ 64
    → IsLogged steps (apply_all (with_ddos_protection true ddos) steps)
unfolding with_ddos_protection new_ring
apply_all-IsLogged steps ddos small =
    let logger = with_ddos_protection true ddos in
    let events = logged steps in
    record {
      accounts =
          subst (Perm (accounted (apply_all logger steps))) (append-nil events)
            (apply_all-accounted steps logger refl);
      few = omega (arith, apply_all-traced steps logger);
      latest = λ i inside near.
          let slot : 0 + i ≡ i = omega arith in
          rw (apply_all-buffer steps logger) (
            ap (λ (k : ℕ). lookup (k % 500) (store_all 500 new_ring events).slots) (sym slot)
            ∙ store_all-latest 500 events-Spaced i new_ring events inside near (omega arith));
    }
