-- ===== src/Handlers/Tasks.antt =====
-- How a schedule moves the tasks of `batch_handshake` of src/server/handlers.rs.
use rfo_protocol.Base.{
  ℕ, zero, suc, ◌+◌, ◌-◌, ◌≤◌, ◌≡◌, ◌≢◌, refl, sym, ap, ◌∙◌, Option, none, some, List, [], ◌∷◌, map,
  Text, if◌then◌else◌, get_elem?, set, ◌==◌, ==_iff, Bool-cases, Option-cases, inl, inr, arith,
}
use rfo_protocol.Payloads.{CacheEntry, HandshakeRequest}
use rfo_protocol.SiteId.{verify_handshake_nonce}
use rfo_protocol.Handlers.{AppState}
use rfo_protocol.Handlers.Handshake.{Env, Readings, look_up}
use rfo_protocol.Handlers.Batch.{
  Phase, waiting, fetching, finished, Task, begin_from, begin_inner, advance, run_task,
  run_schedule,
}

-- How often the schedule runs the task.
unfoldable pub steps_of : ℕ → List (ℕ × Readings) → ℕ
steps_of j [] = 0
steps_of j ((i, r) ∷ more) = (if i == j then 1 else 0) + steps_of j more

-- The steps that a task has left at most.
unfoldable pub rank : Phase → ℕ
rank waiting = 2
rank fetching = 1
rank (finished answer) = 0

abbrev pub domain_of : Task → Text
domain_of task = task.request.domain_url

get_elem?-set_self {ℓ} :
    {A : Type ℓ} (xs : List A) (i : ℕ) (v a : A)
    → get_elem? xs i ≡ some a
    → get_elem? (set xs i v) i ≡ some v
get_elem?-set_self [] i v a h = cc
get_elem?-set_self (x ∷ xs) zero v a h = refl
get_elem?-set_self (x ∷ xs) (suc i) v a h = get_elem?-set_self xs i v a h

get_elem?-set_other {ℓ} :
    {A : Type ℓ} (xs : List A) (i j : ℕ) (v : A) → i ≢ j → get_elem? (set xs i v) j ≡ get_elem? xs j
get_elem?-set_other [] i j v h = refl
get_elem?-set_other (x ∷ xs) zero zero v h = absurd (h refl)
get_elem?-set_other (x ∷ xs) zero (suc j) v h = refl
get_elem?-set_other (x ∷ xs) (suc i) zero v h = refl
get_elem?-set_other (x ∷ xs) (suc i) (suc j) v h = get_elem?-set_other xs i j v (λ e. h (ap suc e))

pub some_inj {ℓ} : {A : Type ℓ} {a b : A} → some a ≡ some b → a ≡ b
some_inj h = cc

map-set {ℓ κ} :
    {A : Type ℓ} {B : Type κ} (f : A → B) (xs : List A) (i : ℕ) (v a : A)
    → get_elem? xs i ≡ some a
    → f v ≡ f a
    → map f (set xs i v) ≡ map f xs
map-set f [] i v a h e = refl
map-set f (x ∷ xs) zero v a h e = ap (λ b. b ∷ map f xs) (e ∙ ap f (sym (some_inj h)))
map-set f (x ∷ xs) (suc i) v a h e = ap (λ r. f x ∷ r) (map-set f xs i v a h e)

-- What a run leaves of a task.
unfoldable pub Ran : Task → ℕ → Option Task → Type 0
Ran task n now = (task' : Task) × (now ≡ some task') × (rank task'.phase ≤ rank task.phase - n)

module _ {V : Type 0} (env : Env) where
  rank-begin_from :
      (found : Option CacheEntry) (s : AppState V) (request : HandshakeRequest) (r : Readings)
      → rank (begin_from (found, s) request r).0 ≤ 1
  unfolding begin_from rank
  rank-begin_from (some entry) s request r = omega arith
  rank-begin_from none s request r = omega arith

  rank-advance :
      (s : AppState V) (request : HandshakeRequest) (phase : Phase) (r : Readings)
      → rank (advance env s request phase r).0 ≤ rank phase - 1
  unfolding advance begin_inner rank
  rank-advance s request waiting r =
      elim (Bool-cases (verify_handshake_nonce r.checked_at request.nonce request.timestamp)) [
        | inl accepted ↦ rw accepted (
            rank-begin_from (look_up s request.domain_url r.looked_up_at).0
              (look_up s request.domain_url r.looked_up_at).1 request r)
        | inr refused ↦ rw refused (omega arith)
      ]
  rank-advance s request fetching r = omega arith
  rank-advance s request (finished answer) r = omega arith

  domains-run_task :
      (tasks : List Task) (i : ℕ) (s : AppState V) (r : Readings)
      → map domain_of (run_task env tasks i (get_elem? tasks i) s r).0 ≡ map domain_of tasks
  unfolding run_task
  domains-run_task tasks i s r = elim (Option-cases (get_elem? tasks i)) [
    | inl out ↦ rw (out, run_task)
    | inr (task, there) ↦ rw (there, run_task) (map-set domain_of tasks i _ task there refl)
  ]

  run_task-other :
      (tasks : List Task) (i j : ℕ) (now : Option Task) (s : AppState V) (r : Readings)
      → i ≢ j
      → get_elem? (run_task env tasks i now s r).0 j ≡ get_elem? tasks j
  unfolding run_task
  run_task-other tasks i j none s r h = refl
  run_task-other tasks i j (some task) s r h = get_elem?-set_other tasks i j _ h

  run_task-Ran :
      (tasks : List Task) (i j : ℕ) (s : AppState V) (r : Readings) (task : Task)
      → get_elem? tasks j ≡ some task
      → Ran task
          (if i == j then 1 else 0)
          (get_elem? (run_task env tasks i (get_elem? tasks i) s r).0 j)
  unfolding run_task Ran
  run_task-Ran tasks i j s r task there = elim (Bool-cases (i == j)) [
    | inl same ↦
        let i_is_j : i ≡ j = (==_iff i j).0 same in
        let at_i : get_elem? tasks i ≡ some task = ap (get_elem? tasks) i_is_j ∙ there in
        let stepped = advance env s task.request task.phase r in
        let task' : Task = record task { phase = stepped.0 } in
        rw same (
          task',
          ap (λ o. get_elem? (run_task env tasks i o s r).0 j) at_i
              ∙ ap (get_elem? (set tasks i task')) (sym i_is_j)
              ∙ get_elem?-set_self tasks i task' task at_i,
          rank-advance s task.request task.phase r,
        )
    | inr apart ↦
        let i_is_not_j : i ≢ j = λ e. cc ((==_iff i j).1 e) in
        rw apart
          (task, run_task-other tasks i j (get_elem? tasks i) s r i_is_not_j ∙ there, omega arith)
  ]

  pub run_schedule-Ran :
      (schedule : List (ℕ × Readings)) (tasks : List Task) (j : ℕ) (s : AppState V) (task : Task)
      → get_elem? tasks j ≡ some task
      → Ran task (steps_of j schedule) (get_elem? (run_schedule env schedule tasks s).0 j)
  unfolding run_schedule Ran steps_of
  run_schedule-Ran [] tasks j s task there = (task, there, omega arith)
  run_schedule-Ran ((i, r) ∷ more) tasks j s task there =
      let step = run_task env tasks i (get_elem? tasks i) s r in
      let (next, at_j, first) = run_task-Ran tasks i j s r task there in
      let (last, found, rest) = run_schedule-Ran more step.0 j step.1 next at_j in
      (last, found, omega (arith, first, rest))

  pub domains-run_schedule :
      (schedule : List (ℕ × Readings)) (tasks : List Task) (s : AppState V)
      → map domain_of (run_schedule env schedule tasks s).0 ≡ map domain_of tasks
  unfolding run_schedule
  domains-run_schedule [] tasks s = refl
  domains-run_schedule ((i, r) ∷ more) tasks s =
      let step = run_task env tasks i (get_elem? tasks i) s r in
      domains-run_schedule more step.0 step.1 ∙ domains-run_task tasks i s r
