-- ===== src/Handlers/Schedules.antt =====
-- The answer of `batch_handshake` of src/server/handlers.rs under any schedule of its tasks.
use rfo_protocol.Base.{
  ne→==, ℕ, suc, ◌≤◌, ◌<◌, ◌≡◌, refl, sym, ap, ap₂, ◌∙◌, subst, some, List, [], ◌∷◌, map, Text, ok,
  err, panicked, ltb, le→ltb, ltb→lt, ltb→le, get_elem?-out, length, get_elem?, get_elem?-in,
  Bool-cases, inl, inr, arith,
}
use rfo_protocol.Base.Int.{ℤ}
use rfo_protocol.Handlers.{AppState}
use rfo_protocol.Handlers.Handshake.{Env, Readings}
use rfo_protocol.Handlers.Batch.{
  BatchHandshakeRequest, BatchResult, succeeded, failed, task_panicked, Phase, waiting, fetching,
  finished, Task, run_schedule, both, result_of, collect, spawned, batch_handshake,
}
use rfo_protocol.Handlers.Tasks.{
  steps_of, rank, domain_of, some_inj, Ran, domains-run_schedule, run_schedule-Ran,
}

-- The result is one for the domain.
abbrev pub About : Text → BatchResult → Type 0
About domain (succeeded d site_id quality_score processing_time_ms) = d ≡ domain
About domain (failed d message status) = d ≡ domain
About domain task_panicked = Unit

-- A result for each domain, in the same order.
abbrev pub AboutAll : List Text → List BatchResult → Type 0
AboutAll [] [] = Unit
AboutAll [] (r ∷ rs) = ⊥
AboutAll (d ∷ ds) [] = ⊥
AboutAll (d ∷ ds) (r ∷ rs) = About d r × AboutAll ds rs

result_of-About :
    (domain : Text) (phase : Phase)
    → rank phase ≡ 0
    → (result : BatchResult) × (result_of domain phase ≡ some result) × About domain result
unfolding result_of rank
result_of-About domain waiting h = absurd (omega (arith, h))
result_of-About domain fetching h = absurd (omega (arith, h))
result_of-About domain (finished (ok response)) h = (_, refl, refl)
result_of-About domain (finished (err e)) h = (_, refl, refl)
result_of-About domain (finished panicked) h = (task_panicked, refl, tt)

-- Every task has ended.
Ended : List Task → Type 0
Ended tasks = (j : ℕ) (task : Task) → get_elem? tasks j ≡ some task → rank task.phase ≡ 0

collect-AboutAll :
    (tasks : List Task)
    → Ended tasks
    → (results : List BatchResult) × (collect tasks ≡ some results)
      × AboutAll (map domain_of tasks) results
unfolding collect Ended
collect-AboutAll [] h = ([], refl, tt)
collect-AboutAll (task ∷ more) h =
    let (result, given, about) =
      result_of-About task.request.domain_url task.phase (h 0 task refl) in
    let (results, collected, rest) =
      collect-AboutAll more (λ j other there. h (suc j) other there) in
    (result ∷ results, ap₂ both given collected, (about, rest))

-- The tasks that are spawned.
domains-spawned :
    (request : BatchHandshakeRequest) (nonce : Text) (timestamp : ℤ) (domains : List Text)
    → map domain_of (spawned request nonce timestamp domains) ≡ domains
unfolding spawned
domains-spawned request nonce timestamp [] = refl
domains-spawned request nonce timestamp (d ∷ more) =
    ap (λ r. d ∷ r) (domains-spawned request nonce timestamp more)

length-map {ℓ κ} :
    {A : Type ℓ} {B : Type κ} (f : A → B) (xs : List A) → length (map f xs) ≡ length xs
length-map f [] = refl
length-map f (x ∷ xs) = ap suc (length-map f xs)

rank-le : (phase : Phase) → rank phase ≤ 2
unfolding rank
rank-le waiting = omega arith
rank-le fetching = omega arith
rank-le (finished answer) = omega arith

module _ {V : Type 0} (env : Env) where
  Ended-run_schedule :
      (schedule : List (ℕ × Readings)) (tasks : List Task) (s : AppState V)
      → ((i : ℕ) → i < length tasks → 2 ≤ steps_of i schedule)
      → Ended (run_schedule env schedule tasks s).0
  unfolding Ended Ran
  Ended-run_schedule schedule tasks s enough j task there =
      let ended = (run_schedule env schedule tasks s).0 in
      let same_length : length ended ≡ length tasks =
        sym (length-map domain_of ended)
        ∙ ap length (domains-run_schedule env schedule tasks s)
        ∙ length-map domain_of tasks in
      elim (Bool-cases (ltb j (length tasks))) [
        | inl inside ↦
            let (first, at_j) = get_elem?-in tasks j (ltb→lt j (length tasks) inside) in
            let (last, found, few) = run_schedule-Ran env schedule tasks j s first at_j in
            let same : task ≡ last = some_inj (sym there ∙ found) in
            ap (λ (t : Task). rank t.phase) same
            ∙ omega (arith, few, rank-le first.phase, enough j (ltb→lt j (length tasks) inside))
        | inr outside ↦
            let out =
              get_elem?-out ended j (omega (arith, same_length, ltb→le j (length tasks) outside)) in
            cc (sym there ∙ out)
      ]

  batch_handshake-accepted :
      (s : AppState V) (request : BatchHandshakeRequest) (nonce : Text) (timestamp : ℤ)
      (schedule : List (ℕ × Readings))
      → 1 ≤ length request.domains
      → length request.domains ≤ 20
      → (batch_handshake env s request nonce timestamp schedule).0
        ≡ ok (
            collect
              (run_schedule env schedule (spawned request nonce timestamp request.domains) s).0)
  unfolding batch_handshake
  batch_handshake-accepted s request nonce timestamp schedule some_domain few = rw (
    ne→== (length request.domains) 0 (λ e. absurd (omega (arith, some_domain, e))),
    le→ltb 20 (length request.domains) few,
  )

  -- One to twenty domains, and a schedule that runs the task of each of them at least twice, in whatever
  -- order: the batch is answered, with one result for each domain in the order of the request.
  pub batch_handshake-AboutAll :
      (s : AppState V) (request : BatchHandshakeRequest) (nonce : Text) (timestamp : ℤ)
      (schedule : List (ℕ × Readings))
      → 1 ≤ length request.domains
      → length request.domains ≤ 20
      → ((i : ℕ) → i < length request.domains → 2 ≤ steps_of i schedule)
      → (results : List BatchResult) × ((batch_handshake env s request nonce timestamp schedule).0
          ≡ ok (some results))
        × AboutAll request.domains results
  batch_handshake-AboutAll s request nonce timestamp schedule some_domain few enough =
      let tasks = spawned request nonce timestamp request.domains in
      let names = domains-spawned request nonce timestamp request.domains in
      let same_length : length tasks ≡ length request.domains =
        sym (length-map domain_of tasks) ∙ ap length names in
      let (results, collected, about) =
        collect-AboutAll (run_schedule env schedule tasks s).0
          (Ended-run_schedule schedule tasks s (λ i h. enough i (omega (arith, same_length)))) in
      (
        results,
        batch_handshake-accepted s request nonce timestamp schedule some_domain few
            ∙ ap (λ o. ok o) collected,
        subst (λ ds. AboutAll ds results) (domains-run_schedule env schedule tasks s ∙ names) about,
      )
