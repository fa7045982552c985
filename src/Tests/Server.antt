-- ===== src/Tests/Server.antt =====
-- The server's handlers, its web sockets and its report on small inputs.
use rfo_protocol.Base.{
  err, ◌++◌, ℕ, zero, suc, ◌+◌, ◌≤◌, ◌<◌, ◌≡◌, refl, true, Option, none, some, List, [], ◌∷◌, map,
  Text, codes, ok, arith,
}
use rfo_protocol.Base.Int.{pos}
use rfo_protocol.Base.Keys.{text_eq, lookup, nat_eq}
use rfo_protocol.Base.Strings.{as_bytes}
use rfo_protocol.Payloads.{CacheEntry, mdoc, HandshakeRequest}
use rfo_protocol.Protocol.{WsMessage, subscribe, unsubscribe, update}
use rfo_protocol.Cache.{new_cache, is_fresh}
use rfo_protocol.Cache
use rfo_protocol.Telemetry.{new_tracker, TelemetryTracker, RequestTelemetry, record_handshake}
use rfo_protocol.Telemetry.Report.{report}
use rfo_protocol.Telemetry.Ranking.{IsTop, site_known, report-IsTop}
use rfo_protocol.Limits.Rate.{new_state}
use rfo_protocol.Limits.Ddos.{new_protection}
use rfo_protocol.Audit.{new_logger}
use rfo_protocol.Parser.Html.{Markup}
use rfo_protocol.SiteId.{verify_handshake_nonce, age}
use rfo_protocol.WebSocket.{
  new_manager, subscribe_domain, subscriber_count, Incoming, text, close, ws_handler,
}
use rfo_protocol.WebSocket.Channels.{Use, publish, subscribe_to, use_all, received, updates_of}
use rfo_protocol.WebSocket.Delivery.{received-subscribe_domain}
use rfo_protocol.WebSocket.Sessions.{asked, subscriber_count-ws_handler}
use rfo_protocol.Handlers.{AppState, get_doc}
use rfo_protocol.Handlers.Handshake.{
  Env, Readings, response_for, look_up, handshake, handshake_from, handshake_hit, handshake_miss,
  fetch_and_compile,
}
use rfo_protocol.Handlers.Replay.{handshake-replayed}
use rfo_protocol.Handlers.Serving.{IsFailure, Unharmed, handshake-Safe}
use rfo_protocol.Handlers.Batch.{BatchHandshakeRequest, BatchResult, batch_handshake}
use rfo_protocol.Handlers.Tasks.{steps_of}
use rfo_protocol.Handlers.Schedules.{AboutAll, batch_handshake-AboutAll}
use rfo_protocol.Handlers.Reads.{Answered, get_doc-Answered}

abbrev before : List Use
before = subscribe_to (codes "a") ∷ publish (codes "a") 7 (codes "t") ∷ []

abbrev later : List Use
later = publish (codes "b") 1 (codes "t") ∷ publish (codes "a") 2 (codes "u") ∷ []

received-subscribe_domain_example :
    received
      (subscribe_domain (use_all before new_manager) (codes "a")).0
      (use_all later (subscribe_domain (use_all before new_manager) (codes "a")).1).sent
    ≡ updates_of (codes "a") later
received-subscribe_domain_example = received-subscribe_domain before later (codes "a")

one_update : updates_of (codes "a") later ≡ update (codes "a") 2 (codes "u") ∷ []
unfolding updates_of
one_update = refl

abbrev decode : Text → Option WsMessage
decode [] = none
decode (c ∷ []) = some (unsubscribe (codes "a" ∷ []))
decode (c ∷ d ∷ more) = some (subscribe (codes "a" ∷ codes "a" ∷ []))

abbrev frames : List Incoming
frames = text (codes "ab") ∷ text (codes "a") ∷ close ∷ text (codes "ab") ∷ []

subscriber_count-ws_handler_example :
    subscriber_count (ws_handler decode frames new_manager).manager (codes "a")
    ≡ asked decode (codes "a") frames + subscriber_count new_manager (codes "a")
subscriber_count-ws_handler_example =
    subscriber_count-ws_handler decode frames new_manager (codes "a")

two_left : asked decode (codes "a") frames ≡ 2
unfolding asked
two_left = refl

abbrev tracker : TelemetryTracker
tracker = record_handshake (new_tracker 0) (codes "id")

report-IsTop_example :
    IsTop 10
      (λ s. s.total_handshakes)
      (report tracker 1 5).top_sites
      (map (site_known tracker) tracker.handshake_counts)
    × IsTop 20
        (λ r. r.timestamp)
        (report tracker 1 5).recent_requests
        (map (λ (s : ℕ × RequestTelemetry). s.1) tracker.recent_requests.slots)
report-IsTop_example = report-IsTop tracker 1 5

abbrev markup : Markup
markup = record {
  Node = Text;
  parse_document = λ html. html;
  root_element = λ node. node;
  select = λ selector node. [];
  text = λ node. node;
  attr = λ name node. none;
  html = λ node. node;
  replace_all = λ pattern s replacement. s;
}

abbrev env : Env
env = record {
  markup = markup;
  hmac_sha256 = λ key message. message;
  hex_encode = λ b. codes "id";
  secret = some (codes "s");
  client = ok tt;
  send = λ url. ok (ok (codes "# Home"));
}

abbrev entry : CacheEntry
entry = record {
  header = record { site_id = codes "id"; coordinates = []; quality_score = 1 };
  doc = record { raw_markdown = []; data_tables = []; verification_signature = codes "id" };
  mdoc = record { summary = []; token_count = 0; qa_pairs = [] };
  cached_at = 1000;
}

abbrev state : AppState ℕ
state = record {
  db = [];
  cache = record { inner = (codes "http://a/b.md", entry) ∷ []; ttl_seconds = pos 300 };
  rate_limit = new_state;
  telemetry = new_tracker 0;
  api_keys = [];
  audit = new_logger true;
  ddos = new_protection 1 1;
  ws_manager = new_manager;
}

abbrev request_for : Text → HandshakeRequest
request_for domain_url = record {
  domain_url = domain_url;
  coordinates = [];
  requested_payload = mdoc;
  nonce = codes "0123456789abcdef";
  timestamp = pos 100;
}

abbrev readings : Readings
readings = record {
  received_at = 2000;
  checked_at = 100;
  looked_up_at = 2000;
  identified_at = pos 100;
  signed_at = pos 100;
  compiled_at = 2001;
  recorded_at = 2002;
  elapsed_ms = 1;
}

answered :
    (handshake env state (request_for (codes "http://a/b.md")) readings).0
    ≡ ok (response_for entry (request_for (codes "http://a/b.md")) readings)
unfolding handshake handshake_from handshake_hit look_up Cache.get is_fresh lookup
    verify_handshake_nonce age as_bytes
answered = refl

handshake-replayed_example :
    (e : CacheEntry) × (response_for entry (request_for (codes "http://a/b.md")) readings
      ≡ response_for e (request_for (codes "http://a/b.md")) readings)
    × ((env' : Env) (next : HandshakeRequest) (r' : Readings)
        → next.domain_url ≡ codes "http://a/b.md"
        → verify_handshake_nonce r'.checked_at next.nonce next.timestamp ≡ true
        → is_fresh
            (handshake env state (request_for (codes "http://a/b.md")) readings).1.cache.ttl_seconds
            r'.looked_up_at
            e
          ≡ true
        → (handshake env'
            (handshake env state (request_for (codes "http://a/b.md")) readings).1
            next
            r').0
          ≡ ok (response_for e next r'))
handshake-replayed_example =
    handshake-replayed env state (request_for (codes "http://a/b.md")) readings
      (response_for entry (request_for (codes "http://a/b.md")) readings) answered

abbrev unreachable : Env
unreachable = record env { send = λ url. err (codes "refused") }

-- The web is out of reach, and the entry asked for has expired.
abbrev late : Readings
late = record readings { looked_up_at = 400_000_000_000_000 }

handshake-Safe_example :
    IsFailure 502
    × Unharmed state
        (handshake unreachable state (request_for (codes "http://a/b.md")) late).1
        (codes "http://a/b.md")
unfolding handshake handshake_from handshake_miss look_up Cache.get is_fresh lookup
    verify_handshake_nonce age as_bytes fetch_and_compile
handshake-Safe_example = handshake-Safe unreachable state (request_for (codes "http://a/b.md")) late

handshake-failed :
    (handshake unreachable state (request_for (codes "http://a/b.md")) late).0
    ≡ err (502, codes "Failed to fetch URL: " ++ codes "refused")
unfolding handshake handshake_from handshake_miss look_up Cache.get is_fresh lookup
    verify_handshake_nonce age as_bytes fetch_and_compile
handshake-failed = refl

abbrev batch : BatchHandshakeRequest
batch = record {
  domains = codes "http://c" ∷ codes "http://a/b.md" ∷ [];
  coordinates = [];
  requested_payload = mdoc;
}

abbrev schedule : List (ℕ × Readings)
schedule = (1, readings) ∷ (0, readings) ∷ (1, readings) ∷ (0, readings) ∷ []

all_run_twice : (i : ℕ) → i < 2 → 2 ≤ steps_of i schedule
unfolding steps_of
all_run_twice zero h = omega arith
all_run_twice (suc zero) h = omega arith
all_run_twice (suc (suc i)) h = absurd (omega arith)

batch_handshake-AboutAll_example :
    (results : List BatchResult) × ((batch_handshake env state batch
        (codes "0123456789abcdef")
        (pos 100)
        schedule).0
      ≡ ok (some results))
    × AboutAll batch.domains results
batch_handshake-AboutAll_example =
    batch_handshake-AboutAll env state batch (codes "0123456789abcdef") (pos 100) schedule
      (omega arith) (omega arith) all_run_twice

get_doc-Answered_example : Answered state (codes "a/b") 2000 (get_doc state (codes "a/b") 2000)
get_doc-Answered_example = get_doc-Answered state (codes "a/b") 2000
