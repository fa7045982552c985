-- ===== src/Handlers/Batch.antt =====
-- `process_handshake_inner` and `batch_handshake` of src/server/handlers.rs. A task of the batch
-- awaits the web in the middle of its handshake, and the tasks of other domains may run there: a
-- schedule names, for each step, the task that runs on and the clock's readings of that step. The
-- steps between the awaits are taken as a whole.
use rfo_protocol.Base.{
  ℕ, Option, none, some, List, [], ◌∷◌, Text, codes, Outcome, ok, err, panicked, ltb, ◌==◌,
  if◌then◌else◌, length, get_elem?, set,
}
use rfo_protocol.Base.Int.{ℤ}
use rfo_protocol.Base.Keys.{Assoc}
use rfo_protocol.Payloads.{PayloadType, mdoc, CacheEntry, HandshakeRequest, HandshakeResponse}
use rfo_protocol.SiteId.{verify_handshake_nonce}
use rfo_protocol.Handlers.{AppState, Failure, hit_state, miss_state}
use rfo_protocol.Handlers.Handshake.{
  Env, Readings, fetch_and_compile, response_for, note_handshake, store_entry, log_answered,
  look_up,
}

pub record BatchHandshakeRequest : Type 0 where
  pub domains : List Text
  pub coordinates : Assoc Text Text
  pub requested_payload : PayloadType

abbrev pub default_payload_type : PayloadType
default_payload_type = mdoc

-- The JSON values of the answer.
pub data BatchResult : Type 0 where
  succeeded : Text → Text → ℕ → ℕ → BatchResult
  failed : Text → Text → ℕ → BatchResult
  task_panicked : BatchResult

pub data Phase : Type 0 where
  waiting fetching : Phase
  finished : Outcome Failure HandshakeResponse → Phase

pub record Task : Type 0 where
  pub request : HandshakeRequest
  pub phase : Phase

abbrev pub inner_entry : Env → HandshakeRequest → Readings → Outcome Failure CacheEntry
inner_entry = fetch_and_compile (codes "Fetch failed: ") (codes "Read failed: ")

module _ {V : Type 0} where
  unfoldable pub begin_from :
      Option CacheEntry × AppState V → HandshakeRequest → Readings → Phase × AppState V
  begin_from (some entry, s) request r = (
    finished (ok (response_for entry request r)),
    log_answered (note_handshake (hit_state s) entry.header.site_id) entry request r,
  )
  begin_from (none, s) request r = (fetching, miss_state s)

  -- Up to the first await of the web: the answer, if the handshake has one without it.
  unfoldable pub begin_inner : AppState V → HandshakeRequest → Readings → Phase × AppState V
  unfolding begin_from
  begin_inner s request r =
      if verify_handshake_nonce r.checked_at request.nonce request.timestamp
      then begin_from (look_up s request.domain_url r.looked_up_at) request r
      else (finished (err (401, codes "Invalid nonce")), s)

  -- From there on.
  unfoldable pub finish_inner :
      AppState V
      → Outcome Failure CacheEntry
      → HandshakeRequest
      → Readings
      → Outcome Failure HandshakeResponse × AppState V
  finish_inner s (ok entry) request r = (
    ok (response_for entry request r),
    log_answered (store_entry s entry request r) entry request r,
  )
  finish_inner s (err e) request r = (err e, s)
  finish_inner s panicked request r = (panicked, s)

  -- One step of a phase.
  unfoldable pub advance :
      Env → AppState V → HandshakeRequest → Phase → Readings → Phase × AppState V
  unfolding begin_inner
  advance env s request waiting r = begin_inner s request r
  advance env s request fetching r =
      let (answer, s') = finish_inner s (inner_entry env request r) request r in
      (finished answer, s')
  advance env s request (finished answer) r = (finished answer, s)

  -- `process_handshake_inner`, alone: its two steps, the readings of both of them.
  unfoldable pub process_handshake_inner :
      Env → AppState V → HandshakeRequest → Readings → Phase × AppState V
  process_handshake_inner env s request r =
      let (phase, s') = advance env s request waiting r in advance env s' request phase r

  unfoldable pub run_task :
      Env → List Task → ℕ → Option Task → AppState V → Readings → List Task × AppState V
  run_task env tasks i none s r = (tasks, s)
  run_task env tasks i (some task) s r =
      let (phase, s') = advance env s task.request task.phase r in
      (set tasks i (record task { phase = phase }), s')

  unfoldable pub run_schedule :
      Env → List (ℕ × Readings) → List Task → AppState V → List Task × AppState V
  run_schedule env [] tasks s = (tasks, s)
  run_schedule env ((i, r) ∷ more) tasks s =
      let (tasks', s') = run_task env tasks i (get_elem? tasks i) s r in
      run_schedule env more tasks' s'

-- `handle.await` of one task; `none` where it has not ended.
unfoldable pub result_of : Text → Phase → Option BatchResult
result_of domain waiting = none
result_of domain fetching = none
result_of domain (finished (ok response)) = some (
    succeeded domain response.header.site_id response.header.quality_score
      response.processing_time_ms)
result_of domain (finished (err e)) = some (failed domain e.1 e.0)
result_of domain (finished panicked) = some task_panicked

abbrev pub both : Option BatchResult → Option (List BatchResult) → Option (List BatchResult)
both none results = none
both (some result) none = none
both (some result) (some results) = some (result ∷ results)

-- `for handle in handles`
unfoldable pub collect : List Task → Option (List BatchResult)
collect [] = some []
collect (task ∷ more) = both (result_of task.request.domain_url task.phase) (collect more)

-- The tasks that are spawned, all with one nonce and one time.
unfoldable pub spawned : BatchHandshakeRequest → Text → ℤ → List Text → List Task
spawned request nonce timestamp [] = []
spawned request nonce timestamp (domain ∷ more) =
    record {
      request = record {
        domain_url = domain;
        coordinates = request.coordinates;
        requested_payload = request.requested_payload;
        nonce = nonce;
        timestamp = timestamp;
      };
      phase = waiting;
    }
    ∷ spawned request nonce timestamp more

module _ {V : Type 0} where
  -- The answer is `none` where the schedule ends before the last task has.
  unfoldable pub batch_handshake :
      Env
      → AppState V
      → BatchHandshakeRequest
      → Text
      → ℤ
      → List (ℕ × Readings)
      → Outcome Failure (Option (List BatchResult)) × AppState V
  batch_handshake env s request nonce timestamp schedule =
      if length request.domains == 0
      then (err (400, codes "domains list cannot be empty"), s)
      else if ltb 20 (length request.domains)
      then (err (400, codes "max 20 domains per batch"), s)
      else let (tasks, s') =
          run_schedule env schedule (spawned request nonce timestamp request.domains) s in
        (ok (collect tasks), s')
