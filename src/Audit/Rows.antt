-- ===== src/Audit/Rows.antt =====
-- What becomes of the events that the logger of src/audit.rs hands to the database, step by step.
use mathlib.Core.List.{Perm, perm_middle}
use mathlib.Core.List.Perm
use rfo_protocol.Base.{
  ℕ, zero, suc, ◌≡◌, Bool, true, false, some, List, [], ◌∷◌, ◌++◌, get_elem?, Option-cases, inl,
  inr, delete_at,
}
use rfo_protocol.Base.Keys.{nat_eq}
use rfo_protocol.Audit.{AuditEvent, AuditLogger, log, insert_row, run_spawned}

-- A step of the program: a call of `log`, or the run of a spawned task, which the database takes or not.
pub data Step (V : Type 0) : Type 0 where
  logs : AuditEvent V → Step V
  runs : ℕ → Bool → Step V

get_elem?-Perm {ℓ} :
    {A : Type ℓ} (xs : List A) (n : ℕ) (x : A)
    → get_elem? xs n ≡ some x
    → Perm (x ∷ delete_at n xs) xs
get_elem?-Perm [] n x h = cc
get_elem?-Perm (y ∷ ys) zero x h = let e : x ≡ y = cc in rw e Perm.rfl
get_elem?-Perm (y ∷ ys) (suc n) x h =
    Perm.trans (Perm.swap y x (delete_at n ys)) (Perm.cons y (get_elem?-Perm ys n x h))

-- One more where the database refuses, and none otherwise.
abbrev pub one_refusal : Bool → ℕ
one_refusal true = 0
one_refusal false = 1

module _ {V : Type 0} where
  abbrev pub apply : AuditLogger V → Step V → AuditLogger V
  apply logger (logs event) = log logger event
  apply logger (runs n written) = run_spawned logger n written

  unfoldable pub apply_all : AuditLogger V → List (Step V) → AuditLogger V
  apply_all logger [] = logger
  apply_all logger (step ∷ steps) = apply_all (apply logger step) steps

  -- The events logged, in order.
  unfoldable pub logged : List (Step V) → List (AuditEvent V)
  logged [] = []
  logged (logs event ∷ steps) = event ∷ logged steps
  logged (runs n written ∷ steps) = logged steps

  -- The inserts that the database refuses.
  unfoldable pub refusals : List (Step V) → ℕ
  refusals [] = 0
  refusals (logs event ∷ steps) = refusals steps
  refusals (runs n true ∷ steps) = refusals steps
  refusals (runs n false ∷ steps) = suc (refusals steps)

  -- Each event is a row, traced, or waits for its task.
  abbrev pub accounted : AuditLogger V → List (AuditEvent V)
  accounted logger = logger.rows ++ (logger.traced ++ logger.tasks)

  pub log-accounted :
      (logger : AuditLogger V) (event : AuditEvent V)
      → logger.db ≡ true
      → Perm (accounted (log logger event)) (event ∷ accounted logger)
  unfolding log
  log-accounted logger event on = rw on (
      Perm.trans (Perm.append_left logger.rows (perm_middle logger.traced logger.tasks))
        (perm_middle logger.rows (logger.traced ++ logger.tasks)))

  insert_row-accounted :
      (logger : AuditLogger V) (event : AuditEvent V) (rest : List (AuditEvent V)) (written : Bool)
      → Perm (event ∷ rest) logger.tasks
      → Perm
          (accounted (insert_row (record logger { tasks = rest }) event written))
          (accounted logger)
  unfolding insert_row
  insert_row-accounted logger event rest true same =
      Perm.trans (Perm.symm (perm_middle logger.rows (logger.traced ++ rest))) (
        Perm.append_left logger.rows (
          Perm.trans (Perm.symm (perm_middle logger.traced rest))
            (Perm.append_left logger.traced same)))
  insert_row-accounted logger event rest false same = Perm.append_left logger.rows (
      Perm.trans (Perm.symm (perm_middle logger.traced rest)) (Perm.append_left logger.traced same))

  pub run_spawned-accounted :
      (logger : AuditLogger V) (n : ℕ) (written : Bool)
      → Perm (accounted (run_spawned logger n written)) (accounted logger)
  unfolding run_spawned
  run_spawned-accounted logger n written = elim (Option-cases (get_elem? logger.tasks n)) [
    | inl out ↦ rw (out, run_spawned) Perm.rfl
    | inr (event, there) ↦
        rw (there, run_spawned)
          (insert_row-accounted logger event (delete_at n logger.tasks) written
            (get_elem?-Perm logger.tasks n event there))
  ]
