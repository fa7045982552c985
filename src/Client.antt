-- ===== src/Client.antt =====
-- src/client.rs: the HTTP client, its retries and the calls that use them. The web and the uuid are
-- parameters: `web request attempt` is what becomes of a request at its attempt of that number. A
-- duration is a number of nanoseconds; the product of a duration with the f64 multiplier is a parameter,
-- of a multiplier that is not negative, as `Duration::from_secs_f64` panics otherwise. The rounding to
-- nanoseconds keeps the order, so the least is taken after it.
pub mod Retries
use rfo_protocol.Base.{
  ℕ, zero, suc, ◌+◌, Bool, true, false, not, ◌&&◌, ◌||◌, Option, none, some, List, [], ◌∷◌, ◌++◌,
  Text, codes, Outcome, ok, err, panicked, ◌>>=◌, map_err, if◌then◌else◌, ltb, leb, min, ◌≡◌, refl,
}
use rfo_protocol.Base.Int.{ℤ}
use rfo_protocol.Base.Print.{decimal}
use rfo_protocol.Base.Keys.{Assoc}
use rfo_protocol.Payloads.{
  FullDocPayload, MiniDocPayload, HandshakeRequest, HandshakeResponse, PayloadType,
}

pub data RfoError : Type 0 where
  network : Text → RfoError
  server_error : ℕ → Text → RfoError
  serialization : Text → RfoError
  timed_out : RfoError
  retry_exhausted : ℕ → Text → RfoError

unfoldable pub display : RfoError → Text
display (network e) = codes "network error: " ++ e
display (server_error status body) =
    codes "server error " ++ (decimal status ++ (codes ": " ++ body))
display (serialization e) = codes "serialization error: " ++ e
display timed_out = codes "request timed out"
display (retry_exhausted attempts e) =
    codes "retry exhausted after " ++ (decimal attempts ++ (codes " attempts, last error: " ++ e))

-- What the client asks of a `reqwest::Error`.
pub record WebError : Type 0 where
  pub is_timeout : Bool
  pub is_connect : Bool
  pub is_request : Bool
  pub text : Text

-- A response, with its body where that can be read.
pub record WebResponse : Type 0 where
  pub status : ℕ
  pub body : Option Text

pub data Answer : Type 0 where
  responded : WebResponse → Answer
  failed : WebError → Answer

pub record WebRequest : Type 0 where
  pub method : Text
  pub url : Text
  pub content : Option Text

pub record RetryConfig (F : Type 0) : Type 0 where
  pub max_attempts : ℕ
  pub initial_backoff : ℕ
  pub max_backoff : ℕ
  pub backoff_multiplier : F

-- `RetryConfig::default`, of the f64 for 2.0.
abbrev pub default_config : {F : Type 0} → F → RetryConfig F
default_config two = record {
  max_attempts = 3;
  initial_backoff = 200000000;
  max_backoff = 5000000000;
  backoff_multiplier = two;
}

-- `From<reqwest::Error>`
unfoldable pub from_web : WebError → RfoError
from_web e = if e.is_timeout then timed_out else network e.text

-- `StatusCode::is_server_error` and `is_success`
abbrev pub is_server_error : ℕ → Bool
is_server_error status = leb 500 status && ltb status 600

abbrev pub is_success : ℕ → Bool
is_success status = leb 200 status && ltb status 300

-- An answer that is tried again as long as attempts are left.
unfoldable pub transient : Answer → Bool
transient (responded r) = is_server_error r.status
transient (failed e) = e.is_timeout || e.is_connect || e.is_request

-- What the loop returns at an answer that is not tried again.
unfoldable pub returned : Answer → Outcome RfoError WebResponse
returned (responded r) = ok r
returned (failed e) = err (from_web e)

abbrev pub body_text : Option Text → Text
body_text none = []
body_text (some t) = t

-- `last_error`, with the printed form of a status code as a parameter.
abbrev pub last_error_of : (ℕ → Text) → Answer → Text
last_error_of display_status (responded r) =
    codes "server " ++ (display_status r.status ++ (codes ": " ++ body_text r.body))
last_error_of display_status (failed e) = e.text

-- What a call returns, and how long it slept between its attempts.
pub record Run : Type 0 where
  pub outcome : Outcome RfoError WebResponse
  pub sleeps : List ℕ

abbrev pub slept : ℕ → Run → Run
slept backoff run = record run { sleeps = backoff ∷ run.sleeps }

module _ {F : Type 0} (times : ℕ → F → ℕ) (display_status : ℕ → Text) where
  abbrev pub next_backoff : RetryConfig F → ℕ → ℕ
  next_backoff config backoff = min (times backoff config.backoff_multiplier) config.max_backoff

  -- The loop from an attempt on, with the number of attempts that are left.
  unfoldable pub attempts_from : RetryConfig F → (ℕ → Answer) → ℕ → ℕ → Text → ℕ → Run
  attempts_from config operation zero attempt last_error backoff = record {
    outcome = err (retry_exhausted config.max_attempts last_error);
    sleeps = [];
  }
  attempts_from config operation (suc left) attempt last_error backoff =
      let answer = operation attempt in
      elim (transient answer && ltb attempt config.max_attempts) [
        | true ↦ slept backoff (
            attempts_from config operation left (suc attempt) (last_error_of display_status answer)
              (next_backoff config backoff))
        | false ↦ record { outcome = returned answer; sleeps = [] }
      ]

  unfoldable pub execute_with_retry : RetryConfig F → (ℕ → Answer) → Run
  execute_with_retry config operation =
      attempts_from config operation config.max_attempts 1 [] config.initial_backoff

-- `response.json()`, whose errors are those of reqwest, once the status is a success.
unfoldable pub received :
    {A : Type 0} → (Option Text → Outcome WebError A) → WebResponse → Outcome RfoError A
received read response =
    if not (is_success response.status)
    then err (server_error response.status (body_text response.body))
    else map_err from_web (read response.body)

-- `RfoClient`: the base url without its last slashes is given by `new`; `http` is the web.
pub record RfoClient (F : Type 0) : Type 0 where
  pub base_url : Text
  pub retry : RetryConfig F

module _ {F : Type 0} (times : ℕ → F → ℕ) (display_status : ℕ → Text)
    (web : WebRequest → ℕ → Answer) where
  -- The part that the calls share: the attempts, then the status, then the body.
  abbrev pub call :
      {A : Type 0}
      → RfoClient F
      → (Option Text → Outcome WebError A)
      → WebRequest
      → Outcome RfoError A
  call client read request =
      (execute_with_retry times display_status client.retry (web request)).outcome >>= received read

  abbrev pub fetch :
      {A : Type 0} → RfoClient F → (Option Text → Outcome WebError A) → Text → Outcome RfoError A
  fetch client read path =
      call client read
        (record { method = codes "GET"; url = client.base_url ++ path; content = none })

  unfoldable pub get_doc :
      RfoClient F
      → (Option Text → Outcome WebError FullDocPayload)
      → Text
      → Outcome RfoError FullDocPayload
  get_doc client read domain = fetch client read (codes "/rfo/doc/" ++ domain)

  unfoldable pub get_mdoc :
      RfoClient F
      → (Option Text → Outcome WebError MiniDocPayload)
      → Text
      → Outcome RfoError MiniDocPayload
  get_mdoc client read domain = fetch client read (codes "/rfo/mdoc/" ++ domain)

  -- The listed values are JSON of any shape.
  unfoldable pub list_sites :
      {V : Type 0}
      → RfoClient F
      → (Option Text → Outcome WebError (List V))
      → Outcome RfoError (List V)
  list_sites client read = fetch client read (codes "/rfo/sites")

  unfoldable pub handshake :
      RfoClient F
      → (HandshakeRequest → Outcome Text Text)
      → (Option Text → Outcome WebError HandshakeResponse)
      → Text
      → ℤ
      → Text
      → Assoc Text Text
      → PayloadType
      → Outcome RfoError HandshakeResponse
  handshake client to_string read nonce now domain_url coordinates payload_type = do
    let request : HandshakeRequest = record {
      domain_url = domain_url;
      coordinates = coordinates;
      requested_payload = payload_type;
      nonce = nonce;
      timestamp = now;
    }
    body ← map_err serialization (to_string request)
    call client read (record {
      method = codes "POST";
      url = client.base_url ++ codes "/rfo/handshake";
      content = some body;
    })
