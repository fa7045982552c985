-- ===== src/Handlers/Handshake.antt =====
-- The handshake of src/server/handlers.rs. What the program calls outside of it is in `Env`: the
-- markup crates, HMAC and hex, the secret in the environment, and the HTTP client, whose `send` and
-- `text` may fail. `Readings` are the clock's values in the order in which one handshake reads them.
use rfo_protocol.Base.{
  ℕ, Bool, true, false, Option, none, some, [], ◌∷◌, ◌++◌, Bytes, Text, codes, Outcome, ok, err,
  panicked, ◌>>=◌, map_err, if◌then◌else◌,
}
use rfo_protocol.Base.Int.{ℤ}
use rfo_protocol.Base.Keys.{Assoc, text_eq, insert}
use rfo_protocol.Base.Strings.{ends_with}
use rfo_protocol.Payloads.{
  new_rfo_header, PayloadType, doc, mdoc, Payload, full, mini, CacheEntry, HandshakeRequest,
  HandshakeResponse,
}
use rfo_protocol.Parser.{ParsedContent, parse_markdown, extract_coordinates}
use rfo_protocol.Parser.Html.{Markup, sanitize_for_injection, parse_html}
use rfo_protocol.Compiler.{compile_mdoc, compile_doc, calculate_quality_score}
use rfo_protocol.SiteId.{generate_site_id, verify_handshake_nonce}
use rfo_protocol.Cache.{RfoCache}
use rfo_protocol.Cache
use rfo_protocol.Telemetry.{
  RequestTelemetry, record_quality_score, record_handshake, record_request,
}
use rfo_protocol.Handlers.{AppState, Failure, hit_state, miss_state, upsert_site, log_handshake}

pub record Env : Type 1 where
  pub markup : Markup
  pub hmac_sha256 : Bytes → Bytes → Bytes
  pub hex_encode : Bytes → Text
  pub secret : Option Text
  pub client : Outcome Text (Unit {0})
  pub send : Text → Outcome Text (Outcome Text Text)

-- Nanoseconds, but for the seconds of the nonce's check and of the identifiers.
pub record Readings : Type 0 where
  pub received_at : ℕ
  pub checked_at : ℕ
  pub looked_up_at : ℕ
  pub identified_at : ℤ
  pub signed_at : ℤ
  pub compiled_at : ℕ
  pub recorded_at : ℕ
  pub elapsed_ms : ℕ

-- `coordinates.extend(…)`
unfoldable pub extend : Assoc Text Text → Assoc Text Text → Assoc Text Text
extend coordinates [] = coordinates
extend coordinates ((key, value) ∷ more) = extend (insert key value coordinates) more

unfoldable pub parse_page : Markup → Text → Text → ParsedContent
parse_page markup domain_url html =
    if ends_with domain_url (codes ".md")
    then parse_markdown (sanitize_for_injection markup) html
    else parse_html markup html

-- Steps 5 to 8, up to the entry that is cached.
unfoldable pub compiled :
    Env → ParsedContent → HandshakeRequest → Readings → Outcome Failure CacheEntry
compiled env parsed request r = do
  site_id ←
      map_err (λ e. (500, e))
        (generate_site_id env.hmac_sha256 env.hex_encode env.secret r.identified_at
          request.domain_url)
  document ←
      map_err (λ e. (500, e))
        (compile_doc env.hmac_sha256 env.hex_encode env.secret r.signed_at parsed
          request.domain_url)
  let mini_document = compile_mdoc parsed
  let coordinates = extend (extract_coordinates parsed) request.coordinates
  let header = new_rfo_header site_id coordinates (calculate_quality_score mini_document document)
  ok (record { header = header; doc = document; mdoc = mini_document; cached_at = r.compiled_at })

-- Steps 3 to 8; the two handlers word the errors of the web differently.
unfoldable pub fetch_and_compile :
    Text → Text → Env → HandshakeRequest → Readings → Outcome Failure CacheEntry
fetch_and_compile fetch_failed read_failed env request r = do
  built ← map_err (λ e. (500, e)) env.client
  response ← map_err (λ e. (502, fetch_failed ++ e)) (env.send request.domain_url)
  html ← map_err (λ e. (502, read_failed ++ e)) response
  compiled env (parse_page env.markup request.domain_url html) request r

unfoldable pub chosen : PayloadType → CacheEntry → Payload
chosen doc entry = full entry.doc
chosen mdoc entry = mini entry.mdoc

unfoldable pub response_for : CacheEntry → HandshakeRequest → Readings → HandshakeResponse
response_for entry request r = record {
  header = entry.header;
  payload = chosen request.requested_payload entry;
  processing_time_ms = r.elapsed_ms;
  nonce = request.nonce;
}

-- `format!("{:?}", request.requested_payload)`
unfoldable pub debug_name : PayloadType → Text
debug_name doc = codes "Doc"
debug_name mdoc = codes "Mdoc"

unfoldable pub request_telemetry : Bool → ℕ → HandshakeRequest → Readings → RequestTelemetry
request_telemetry cache_hit processing_time_ms request r = record {
  domain = request.domain_url;
  cache_hit = cache_hit;
  processing_time_ms = processing_time_ms;
  payload_type = debug_name request.requested_payload;
  timestamp = r.received_at;
}

module _ {V : Type 0} where
  unfoldable pub note_request : AppState V → RequestTelemetry → AppState V
  note_request s t = record s { telemetry = record_request s.telemetry t }

  unfoldable pub note_handshake : AppState V → Text → AppState V
  note_handshake s site_id = record s { telemetry = record_handshake s.telemetry site_id }

  -- Steps 8 to 10.
  unfoldable pub store_entry : AppState V → CacheEntry → HandshakeRequest → Readings → AppState V
  store_entry s entry request r =
      let site_id = entry.header.site_id in
      let score = entry.header.quality_score in
      let cached : AppState V = record s {
        cache = Cache.insert s.cache request.domain_url entry;
      } in
      let upserted = upsert_site cached site_id request.domain_url score entry.header.coordinates in
      note_handshake
        (record upserted {
          telemetry =
              record_quality_score upserted.telemetry site_id request.domain_url score
                r.recorded_at;
        })
        site_id

  -- The row of a handshake that is answered.
  unfoldable pub log_answered : AppState V → CacheEntry → HandshakeRequest → Readings → AppState V
  log_answered s entry request r =
      log_handshake s entry.header.site_id request.nonce r.received_at r.elapsed_ms 200

  -- `self.cache.get(…)`, which drops an entry that is expired.
  unfoldable pub look_up : AppState V → Text → ℕ → Option CacheEntry × AppState V
  look_up s domain_url now =
      let (found, cache) = Cache.get s.cache domain_url now in (found, record s { cache = cache })

  unfoldable pub handshake_hit :
      AppState V
      → CacheEntry
      → HandshakeRequest
      → Readings
      → Outcome Failure HandshakeResponse × AppState V
  handshake_hit s entry request r =
      let noted = note_handshake (hit_state s) entry.header.site_id in
      let recorded = note_request noted (request_telemetry true r.elapsed_ms request r) in
      (ok (response_for entry request r), log_answered recorded entry request r)

  unfoldable pub handshake_miss :
      AppState V
      → Outcome Failure CacheEntry
      → HandshakeRequest
      → Readings
      → Outcome Failure HandshakeResponse × AppState V
  handshake_miss s (ok entry) request r =
      let stored = store_entry s entry request r in
      let recorded = note_request stored (request_telemetry false r.elapsed_ms request r) in
      (ok (response_for entry request r), log_answered recorded entry request r)
  handshake_miss s (err e) request r = (err e, s)
  handshake_miss s panicked request r = (panicked, s)

  -- Step 2 and what follows, from the result of the lookup.
  unfoldable pub handshake_from :
      Env
      → Option CacheEntry × AppState V
      → HandshakeRequest
      → Readings
      → Outcome Failure HandshakeResponse × AppState V
  handshake_from env (some entry, s) request r = handshake_hit s entry request r
  handshake_from env (none, s) request r =
      handshake_miss (miss_state s)
        (fetch_and_compile (codes "Failed to fetch URL: ") (codes "Failed to read response: ") env
          request r)
        request r

  unfoldable pub handshake :
      Env
      → AppState V
      → HandshakeRequest
      → Readings
      → Outcome Failure HandshakeResponse × AppState V
  unfolding handshake_from
  handshake env s request r =
      if verify_handshake_nonce r.checked_at request.nonce request.timestamp
      then handshake_from env (look_up s request.domain_url r.looked_up_at) request r
      else (
        err (401, codes "Invalid or expired nonce"),
        note_request (miss_state s) (request_telemetry false 0 request r),
      )
